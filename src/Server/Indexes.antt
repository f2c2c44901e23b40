-- ===== src/Server/Indexes.antt =====
-- The reverse index of a list that every user has: when index and lists agree, and what keeps them so.
use echoi_rcd.Prelude.{
  ℕ, ◌≤◌, Bool, true, false, not, List, [], ◌∷◌, ◌++◌, none, some, Text, if◌then◌else◌, ◌==◌,
  ==_iff, ◌≡◌, refl, arith, length, get, modify, remove, contains, without, indexed, index, unindex,
  unindex_all, get-modify, get-remove, contains-append, contains-without, indexed-index,
  indexed-unindex, indexed-unindex_all, nat_key, text_key,
}
use echoi_rcd.Server.Users.{User}

-- The list of a connection; none if it is not there.
abbrev pub listed : (User → List Text) → ℕ → List (ℕ × User) → List Text
listed p uid users = elim (get uid users) [ none ↦ [] | some u ↦ p u ]

-- The index holds a connection under a nick exactly if the list of the connection has the nick.
abbrev pub Agrees : (User → List Text) → List (Text × List ℕ) → List (ℕ × User) → Type 0
Agrees p by users = (n : Text) (v : ℕ) → indexed n v by ≡ contains n (listed p v users)

-- `retain` dropped something: the length differs.
abbrev pub shrunk : List Text → List Text → Bool
shrunk before after = not (length before == length after)

length-without : (n : Text) (l : List Text) → length (without n l) ≤ length l
length-without n [] = omega arith
length-without n (x ∷ l) = ground (arith, length-without n l)

pub without_absent : (n : Text) (l : List Text) → shrunk l (without n l) ≡ false → without n l ≡ l
without_absent n [] h = refl
without_absent n (x ∷ l) h = ground (arith, without_absent n l, length-without n l)

get_same : (uid v : ℕ) (users : List (ℕ × User)) → (uid == v) ≡ true → get uid users ≡ get v users
get_same uid v users h = rw ((==_iff uid v).0 h)

module _ (p : User → List Text) (by : List (Text × List ℕ)) (users : List (ℕ × User)) where
  listed-modify :
      (f : User → User) (uid : ℕ) (u : User)
      → get uid users ≡ some u
      → (v : ℕ) → listed p v (modify uid f users) ≡ (if uid == v then p (f u) else listed p v users)
  listed-modify f uid u h v =
      rw (listed, get-modify uid v f users) (ground (arith, get_same uid v users))

  listed-remove :
      (uid v : ℕ) → listed p v (remove uid users) ≡ (if uid == v then [] else listed p v users)
  listed-remove uid v = rw (listed, get-remove uid v users) (ground arith)

  pub Agrees-keep :
      (f : User → User) (uid : ℕ) (u : User)
      → get uid users ≡ some u
      → p (f u) ≡ p u
      → Agrees p by users
      → Agrees p by (modify uid f users)
  Agrees-keep f uid u h e a m v =
      rw (listed-modify f uid u h v) (ground (arith, a m v, get_same uid v users))

  pub Agrees-add :
      (f : User → User) (uid : ℕ) (u : User)
      → get uid users ≡ some u
      → (n : Text) → p (f u) ≡ p u ++ n ∷ []
      → Agrees p by users
      → Agrees p (index n uid by) (modify uid f users)
  Agrees-add f uid u h n e a m v =
      rw (listed-modify f uid u h v, indexed-index n m uid v by, e)
        (ground (arith, a m v, get_same uid v users, contains-append m (p u) (n ∷ [])))

  pub Agrees-remove :
      (f : User → User) (uid : ℕ) (u : User)
      → get uid users ≡ some u
      → (n : Text) → p (f u) ≡ without n (p u)
      → Agrees p by users
      → Agrees p (unindex uid n by) (modify uid f users)
  Agrees-remove f uid u h n e a m v =
      rw (listed-modify f uid u h v, indexed-unindex n m uid v by, e)
        (ground (arith, a m v, get_same uid v users, contains-without n m (p u)))

  pub Agrees-clear :
      (f : User → User) (uid : ℕ) (u : User)
      → get uid users ≡ some u
      → p (f u) ≡ []
      → Agrees p by users
      → Agrees p (unindex_all uid (p u) by) (modify uid f users)
  Agrees-clear f uid u h e a m v =
      rw (listed-modify f uid u h v, indexed-unindex_all m uid v (p u) by, e)
        (ground (arith, a m v, get_same uid v users))

  -- The user goes, and is taken out of the index under each nick of its list.
  pub Agrees-gone :
      (uid : ℕ) (u : User)
      → get uid users ≡ some u
      → Agrees p by users
      → Agrees p (unindex_all uid (p u) by) (remove uid users)
  Agrees-gone uid u h a m v =
      rw (listed-remove uid v, indexed-unindex_all m uid v (p u) by)
        (ground (arith, a m v, get_same uid v users))
