-- ===== src/Channel/Member/Bits.antt =====
-- The prefix bits of a byte: a bit that is written is read back, and the others stay.
use Prim.Native.Nat.{bit_and}
use echoi_rcd.Prelude.{
  ℕ, zero, suc, ◌<◌, Bool, true, false, not, ◌&&◌, if◌then◌else◌, ◌==◌, ltb, ltb→lt, ◌≡◌, refl,
  arith, and_left, and_right,
}
use echoi_rcd.Channel.Member.{
  has_bit, with_bit, complement, status_bits, pfx_oper, pfx_owner, pfx_admin, pfx_op, pfx_halfop,
  pfx_voice,
}

-- The six bits in use.
pub data Bit : Type 0 where
  oper owner admin op halfop voice : Bit

abbrev pub mask : Bit → ℕ
mask oper = pfx_oper
mask owner = pfx_owner
mask admin = pfx_admin
mask op = pfx_op
mask halfop = pfx_halfop
mask voice = pfx_voice

-- The predicate holds of every number that is less than the bound.
table : (ℕ → Bool) → ℕ → Bool
table p zero = true
table p (suc k) = table p k && p k

table_entry : (p : ℕ → Bool) (k y : ℕ) → table p k ≡ true → y < k → p y ≡ true
unfolding table
table_entry p zero y full below = absurd (omega arith)
table_entry p (suc k) y full below = ground (arith, table_entry p k y)

abbrev same : Bool → Bool → Bool
same true b = b
same false b = not b

same→eq : (a b : Bool) → same a b ≡ true → a ≡ b
same→eq true true h = refl
same→eq true false h = absurd (cc)
same→eq false true h = absurd (cc)
same→eq false false h = refl

abbrev every_bit : (Bit → Bool) → Bool
every_bit p = p oper && (p owner && (p admin && (p op && (p halfop && p voice))))

every_bit_sound : (p : Bit → Bool) → every_bit p ≡ true → (b : Bit) → p b ≡ true
every_bit_sound p h oper = ground arith
every_bit_sound p h owner = ground arith
every_bit_sound p h admin = ground arith
every_bit_sound p h op = ground arith
every_bit_sound p h halfop = ground arith
every_bit_sound p h voice = ground arith

-- Whether a write of the bit `b` does to the bit `c` what it should.
abbrev write_ok : ℕ → Bit → Bit → Bool
write_ok x b c =
    same (has_bit (with_bit x (mask b) true) (mask c))
      (if mask b == mask c then true else has_bit x (mask c))
    && same (has_bit (with_bit x (mask b) false) (mask c))
        (if mask b == mask c then false else has_bit x (mask c))

write_table : table (λ x. every_bit (λ b. every_bit (write_ok x b))) 256 ≡ true
unfolding table has_bit with_bit
write_table = refl

-- A written bit has its new value, and every other bit in use keeps its own.
pub has_bit-with_bit :
    (x : ℕ) (b c : Bit) (on : Bool)
    → x < 256
    → has_bit (with_bit x (mask b) on) (mask c)
      ≡ (if mask b == mask c then on else has_bit x (mask c))
has_bit-with_bit x b c on h =
    let row : every_bit (λ b'. every_bit (write_ok x b')) ≡ true =
      table_entry (λ y. every_bit (λ b'. every_bit (write_ok y b'))) 256 x write_table h in
    let cell : write_ok x b c ≡ true =
      every_bit_sound (write_ok x b) (every_bit_sound (λ b'. every_bit (write_ok x b')) row b) c in
    by_value on cell
  where
    by_value :
        (on : Bool)
        → write_ok x b c ≡ true
        → has_bit (with_bit x (mask b) on) (mask c)
          ≡ (if mask b == mask c then on else has_bit x (mask c))
    by_value true e = same→eq _ _ (and_left _ _ e)
    by_value false e = same→eq _ _ (and_right _ _ e)

abbrev clear_ok : ℕ → Bit → Bool
clear_ok x c =
    same (has_bit (bit_and x (complement status_bits)) (mask c))
      (if mask c == pfx_oper then has_bit x (mask c) else false)

clear_table : table (λ x. every_bit (clear_ok x)) 256 ≡ true
unfolding table has_bit
clear_table = refl

-- Clearing the status bits leaves the bit of the network staff and no other.
pub has_bit-clear :
    (x : ℕ) (c : Bit)
    → x < 256
    → has_bit (bit_and x (complement status_bits)) (mask c)
      ≡ (if mask c == pfx_oper then has_bit x (mask c) else false)
has_bit-clear x c h =
    same→eq _ _ (
      every_bit_sound (clear_ok x) (table_entry (λ y. every_bit (clear_ok y)) 256 x clear_table h)
        c)

abbrev bound_ok : ℕ → Bit → Bool
bound_ok x b = ltb (with_bit x (mask b) true) 256 && ltb (with_bit x (mask b) false) 256

bound_table : table (λ x. every_bit (bound_ok x)) 256 ≡ true
unfolding table with_bit
bound_table = refl

-- A byte stays a byte.
pub with_bit-lt : (x : ℕ) (b : Bit) (on : Bool) → x < 256 → with_bit x (mask b) on < 256
with_bit-lt x b on h =
    by_value on (
      every_bit_sound (bound_ok x) (table_entry (λ y. every_bit (bound_ok y)) 256 x bound_table h)
        b)
  where
    by_value :
        (on : Bool)
        → (ltb (with_bit x (mask b) true) 256 && ltb (with_bit x (mask b) false) 256) ≡ true
        → with_bit x (mask b) on < 256
    by_value true e = ltb→lt _ 256 (and_left _ _ e)
    by_value false e = ltb→lt _ 256 (and_right _ _ e)
