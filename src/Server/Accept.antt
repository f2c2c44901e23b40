-- ===== src/Server/Accept.antt =====
-- src/server.rs, src/users.rs: the ACCEPT lists of the users, and the count of the lists that hold
-- each nick.
use echoi_rcd.Prelude.{
  ℕ, suc, ◌+◌, ◌-◌, ◌%◌, ◌^◌, ◌≤◌, ◌<◌, true, false, List, [], ◌∷◌, ◌++◌, none, some, Text,
  if◌then◌else◌, ◌==◌, ◌≡◌, ap, arith, get, get_or, insert, modify, remove, get-insert, get-remove,
  without, text_eq, text_eq_iff, nat_key, text_key, Option-cases, Bool-cases, inl, inr, beq_congr,
  beq_congr_right,
}
use echoi_rcd.Server.Users.{User}
use echoi_rcd.Server.State.{Server}
use echoi_rcd.Server.Indexes.{shrunk}

abbrev pub accepted : Text → List (Text × ℕ) → ℕ
accepted n counts = get_or (get n counts) 0

-- One less; the entry goes at 0.
unfoldable pub lower_count : Text → List (Text × ℕ) → List (Text × ℕ)
lower_count n counts = elim (get n counts) [
  | none ↦ counts
  | some c ↦ if c - 1 == 0 then remove n counts else insert n (c - 1) counts
]

unfoldable pub lower_counts : List Text → List (Text × ℕ) → List (Text × ℕ)
lower_counts [] counts = counts
lower_counts (n ∷ ns) counts = lower_counts ns (lower_count n counts)

-- `*entry(n).or_insert(0) += c` on a `u32`
unfoldable pub raise_count : Text → ℕ → List (Text × ℕ) → List (Text × ℕ)
raise_count n c counts = insert n ((accepted n counts + c) % 2 ^ 32) counts

unfoldable pub accept_add : ℕ → Text → Server → Server
accept_add uid nick_low s = elim (get uid s.users) [
  | none ↦ s
  | some u ↦ record s {
    users = modify uid (λ v. record v { accept = v.accept ++ nick_low ∷ [] }) s.users;
    accepted_nicks = raise_count nick_low 1 s.accepted_nicks;
  }
]

unfoldable pub accept_remove : ℕ → Text → Server → Server
accept_remove uid nick_low s = elim (get uid s.users) [
  | none ↦ s
  | some u ↦
      let t = record s {
        users = modify uid (λ v. record v { accept = without nick_low v.accept }) s.users;
      } in
      if shrunk u.accept (without nick_low u.accept)
      then record t { accepted_nicks = lower_count nick_low s.accepted_nicks }
      else t
]

-- A change of every user.
abbrev pub map_users : (User → User) → List (ℕ × User) → List (ℕ × User)
map_users f [] = []
map_users f ((uid, u) ∷ us) = (uid, f u) ∷ map_users f us

abbrev pub replace : Text → Text → List Text → List Text
replace old new [] = []
replace old new (x ∷ xs) = (if text_eq x old then new else x) ∷ replace old new xs

-- The part of `set_nick` that moves the entries of an old nick to the new one.
unfoldable pub accept_rename : Text → Text → Server → Server
accept_rename oldlow newlow s =
    let t = record s {
      users = map_users (λ u. record u { accept = replace oldlow newlow u.accept }) s.users;
    } in
    elim (get oldlow s.accepted_nicks) [
      | none ↦ t
      | some c ↦ record t { accepted_nicks = raise_count newlow c (remove oldlow s.accepted_nicks) }
    ]

abbrev pub occurrences : Text → List Text → ℕ
occurrences n [] = 0
occurrences n (x ∷ xs) = if text_eq x n then suc (occurrences n xs) else occurrences n xs

-- How often the nick stands in the lists of all users.
abbrev pub acceptors : Text → List (ℕ × User) → ℕ
acceptors n [] = 0
acceptors n ((uid, u) ∷ us) = occurrences n u.accept + acceptors n us

-- The count of a nick is at least the number of its entries in the lists.
abbrev pub Covers : Server → Type 0
Covers s = (n : Text) → acceptors n s.users ≤ accepted n s.accepted_nicks

occurrences-append :
    (n m : Text) (l : List Text)
    → occurrences n (l ++ m ∷ []) ≡ occurrences n l + (if text_eq m n then 1 else 0)
occurrences-append n m [] = ground arith
occurrences-append n m (x ∷ l) = ground (arith, occurrences-append n m l)

pub occurrences-without :
    (n m : Text) (l : List Text)
    → occurrences n (without m l) ≡ (if text_eq m n then 0 else occurrences n l)
occurrences-without n m [] = ground arith
occurrences-without n m (x ∷ l) =
    ground (arith, occurrences-without n m l, beq_congr x m n, beq_congr_right x m n)

acceptors-modify :
    (n : Text) (f : User → User) (uid : ℕ) (u : User) (us : List (ℕ × User))
    → get uid us ≡ some u
    → acceptors n (modify uid f us) + occurrences n u.accept
      ≡ acceptors n us + occurrences n (f u).accept
unfolding get modify
acceptors-modify n f uid u [] h = cc
acceptors-modify n f uid u ((k, v) ∷ us) h = elim (Bool-cases (k == uid)) [
  | inl e ↦
      let same_user : v ≡ u = ground arith in
      let same_lists : f v ≡ f u = ap f same_user in ground (arith, same_user, same_lists)
  | inr e ↦ ground (arith, acceptors-modify n f uid u us)
]

acceptors-remove_le :
    (n : Text) (uid : ℕ) (us : List (ℕ × User)) → acceptors n (remove uid us) ≤ acceptors n us
unfolding remove
acceptors-remove_le n uid [] = omega arith
acceptors-remove_le n uid ((k, v) ∷ us) = ground (arith, acceptors-remove_le n uid us)

pub acceptors-remove :
    (n : Text) (uid : ℕ) (u : User) (us : List (ℕ × User))
    → get uid us ≡ some u
    → acceptors n (remove uid us) + occurrences n u.accept ≤ acceptors n us
unfolding get remove
acceptors-remove n uid u [] h = cc
acceptors-remove n uid u ((k, v) ∷ us) h = elim (Bool-cases (k == uid)) [
  | inl e ↦ let same_user : v ≡ u = ground arith in ground (arith, acceptors-remove_le n uid us)
  | inr e ↦ ground (arith, acceptors-remove n uid u us)
]

pub get_same :
    (n m : Text) (counts : List (Text × ℕ)) → text_eq n m ≡ true → get n counts ≡ get m counts
get_same n m counts h = rw ((text_eq_iff n m).0 h)

accepted-lower_count :
    (n m : Text) (counts : List (Text × ℕ))
    → accepted m (lower_count n counts)
      ≡ (if text_eq n m then accepted m counts - 1 else accepted m counts)
unfolding lower_count get text_eq
accepted-lower_count n m counts = elim (Option-cases (get n counts)) [
  | inl h ↦ rw (h, lower_count) (ground (arith, get_same n m counts))
  | inr (c, h) ↦ elim (Bool-cases (c - 1 == 0)) [
    | inl k ↦ rw (lower_count, h, k, get-remove n m counts) (ground (arith, get_same n m counts))
    | inr k ↦
        rw (lower_count, h, k, get-insert n m (c - 1) counts) (ground (arith, get_same n m counts))
  ]
]

pub accepted-lower_counts :
    (m : Text) (ns : List Text) (counts : List (Text × ℕ))
    → accepted m (lower_counts ns counts) ≡ accepted m counts - occurrences m ns
unfolding lower_counts
accepted-lower_counts m [] counts = omega arith
accepted-lower_counts m (n ∷ ns) counts =
    ground
      (arith, accepted-lower_counts m ns (lower_count n counts), accepted-lower_count n m counts)

accepted-raise_count :
    (n m : Text) (c : ℕ) (counts : List (Text × ℕ))
    → accepted n counts + c < 2 ^ 32
    → accepted m (raise_count n c counts)
      ≡ (if text_eq n m then accepted m counts + c else accepted m counts)
unfolding raise_count get text_eq
accepted-raise_count n m c counts h =
    rw (raise_count, get-insert n m ((accepted n counts + c) % 2 ^ 32) counts)
      (ground (arith, get_same n m counts))

-- Adding an entry keeps the counts large enough, as long as they do not overflow.
pub accept_add-Covers :
    (uid : ℕ) (n : Text) (s : Server)
    → accepted n s.accepted_nicks + 1 < 2 ^ 32
    → Covers s
    → Covers (accept_add uid n s)
unfolding accept_add get
accept_add-Covers uid n s small cover m = elim (Option-cases (get uid s.users)) [
  | inl h ↦ rw (accept_add, h) (cover m)
  | inr (u, h) ↦
      rw (accept_add, h, accepted-raise_count n m 1 s.accepted_nicks small)
        (ground (
          arith,
          cover m,
          acceptors-modify m (λ v. record v { accept = v.accept ++ n ∷ [] }) uid u s.users h,
          occurrences-append m n u.accept,
        ))
]

present :
    (n m : Text) (l : List Text)
    → shrunk l (without n l) ≡ true
    → text_eq n m ≡ true
    → 1 ≤ occurrences m l
present n m [] h e = cc
present n m (x ∷ l) h e = ground (arith, present n m l, beq_congr_right x n m)

-- Removing an entry keeps the counts large enough.
pub accept_remove-Covers :
    (uid : ℕ) (n : Text) (s : Server) → Covers s → Covers (accept_remove uid n s)
unfolding accept_remove get
accept_remove-Covers uid n s cover m = elim (Option-cases (get uid s.users)) [
  | inl h ↦ rw (accept_remove, h) (cover m)
  | inr (u, h) ↦
      let moved =
        acceptors-modify m (λ v. record v { accept = without n v.accept }) uid u s.users h in
      elim (Bool-cases (shrunk u.accept (without n u.accept))) [
        | inl k ↦
            rw (accept_remove, h, k, accepted-lower_count n m s.accepted_nicks)
              (ground
                (arith, cover m, moved, occurrences-without m n u.accept, present n m u.accept k))
        | inr k ↦
            rw (accept_remove, h, k)
              (ground (arith, cover m, moved, occurrences-without m n u.accept))
      ]
]

pub accepted-remove :
    (n m : Text) (counts : List (Text × ℕ))
    → accepted m (remove n counts) ≡ (if text_eq n m then 0 else accepted m counts)
unfolding get text_eq
accepted-remove n m counts = rw (accepted, get-remove n m counts) (ground arith)

occurrences-replace :
    (n old new : Text) (l : List Text)
    → text_eq old new ≡ false
    → occurrences n (replace old new l) ≡ (
        if text_eq old n
        then 0
        else if text_eq new n
        then occurrences n l + occurrences old l
        else occurrences n l)
occurrences-replace n old new [] ne = ground arith
occurrences-replace n old new (x ∷ l) ne = ground (
  arith,
  occurrences-replace n old new l ne,
  beq_congr x old n,
  beq_congr_right x old n,
  beq_congr_right old n new,
  beq_congr_right old new n,
)

acceptors-replace :
    (n old new : Text) (us : List (ℕ × User))
    → text_eq old new ≡ false
    → acceptors n (map_users (λ u. record u { accept = replace old new u.accept }) us) ≡ (
        if text_eq old n
        then 0
        else if text_eq new n
        then acceptors n us + acceptors old us
        else acceptors n us)
acceptors-replace n old new [] ne = ground arith
acceptors-replace n old new ((k, u) ∷ us) ne =
    ground (arith, acceptors-replace n old new us ne, occurrences-replace n old new u.accept ne)

-- If the count of each accepted nick is at least the number of its entries in the accept lists,
-- it is so after the entries of a nick are moved to another one as well, as long as the sum of
-- the two counts fits 32 bits.
pub accept_rename-Covers :
    (old new : Text) (s : Server)
    → text_eq old new ≡ false
    → accepted new s.accepted_nicks + accepted old s.accepted_nicks < 2 ^ 32
    → Covers s
    → Covers (accept_rename old new s)
unfolding accept_rename get text_eq
accept_rename-Covers old new s ne small cover n = elim (Option-cases (get old s.accepted_nicks)) [
  | inl h ↦
      rw (accept_rename, h, acceptors-replace n old new s.users ne)
        (ground (arith, cover n, cover old))
  | inr (c, h) ↦
      let kept = remove old s.accepted_nicks in
      let is_count : accepted old s.accepted_nicks ≡ c = ap (λ o. get_or o 0) h in
      let fits : accepted new kept + c < 2 ^ 32 =
        ground (arith, accepted-remove old new s.accepted_nicks, is_count) in
      rw
        (
          accept_rename,
          h,
          acceptors-replace n old new s.users ne,
          accepted-raise_count new n c kept fits,
        )
        (ground (arith, cover n, cover old, is_count, accepted-remove old n s.accepted_nicks))
]
