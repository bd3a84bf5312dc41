-- ===== src/RStruct/Layout.antt =====
-- src/r_struct.rs: what `get` reads of a struct in Ruby's memory.
use magnus.Prelude.{
  ℕ, suc, zero, ◌+◌, ◌*◌, ◌/◌, ◌%◌, ◌^◌, ◌≡◌, ◌≢◌, refl, ap, inl, inr, true, false, none, some, err,
  ◌==◌, if◌then◌else◌, get_elem?, length, bit_and, ltb, arith, Bool-cases,
}
use magnus.Bits.Digits.{bit_and_digit, bit_and_mask}
use magnus.Ruby.{Value, Consts, Heap}
use magnus.Error.{Result, error, index_error}
use magnus.RStruct.{Memory, words, embed_len_mask, as_slice, get}

low_zero : (a b : ℕ) → bit_and a (b * 2) ≡ bit_and (a / 2) b * 2
low_zero a b = ground (arith, bit_and_digit a (b * 2))

halves : (a : ℕ) → (a / 2 / 2 ≡ a / 4)
halves a = omega arith

embed_bits : (a : ℕ) → bit_and a embed_len_mask ≡ a / 2 ^ 13 % 4 * 2 ^ 13
embed_bits a = omega (
  arith,
  low_zero a 12288,
  low_zero (a / 2) 6144,
  low_zero (a / 2 / 2) 3072,
  low_zero (a / 2 / 2 / 2) 1536,
  low_zero (a / 2 / 2 / 2 / 2) 768,
  low_zero (a / 2 / 2 / 2 / 2 / 2) 384,
  low_zero (a / 2 / 2 / 2 / 2 / 2 / 2) 192,
  low_zero (a / 2 / 2 / 2 / 2 / 2 / 2 / 2) 96,
  low_zero (a / 2 / 2 / 2 / 2 / 2 / 2 / 2 / 2) 48,
  low_zero (a / 2 / 2 / 2 / 2 / 2 / 2 / 2 / 2 / 2) 24,
  low_zero (a / 2 / 2 / 2 / 2 / 2 / 2 / 2 / 2 / 2 / 2) 12,
  low_zero (a / 2 / 2 / 2 / 2 / 2 / 2 / 2 / 2 / 2 / 2 / 2) 6,
  low_zero (a / 2 / 2 / 2 / 2 / 2 / 2 / 2 / 2 / 2 / 2 / 2 / 2) 3,
  bit_and_mask 2 (a / 2 / 2 / 2 / 2 / 2 / 2 / 2 / 2 / 2 / 2 / 2 / 2 / 2),
)

length-words : (mem : Memory) (p n : ℕ) → length (words mem p n) ≡ n
length-words mem p zero = refl
length-words mem p (suc n) = ap suc (length-words mem (p + 8) n)

words-get :
    (mem : Memory) (p n i : ℕ)
    → get_elem? (words mem p n) i ≡ (if ltb i n then some (mem (p + i * 8)) else none)
words-get mem p zero i = ground arith
words-get mem p (suc n) zero = ground arith
words-get mem p (suc n) (suc i) = ground (arith, words-get mem (p + 8) n i)

-- How r_struct.rs takes Ruby to lay a struct out, which Ruby does not make public: up to three members
-- are in the object itself, and two bits of the flags have their number, if there are any; otherwise
-- the object has the number and a pointer.
pub data Holds (h : Heap) (mem : Memory) (v : Value) (n : ℕ) (at : ℕ) : Type 0 where
  embedded : h.flags v / 2 ^ 13 % 4 ≡ n → n ≢ 0 → at ≡ v + 16 → Holds h mem v n at
  on_heap : h.flags v / 2 ^ 13 % 4 ≡ 0 → mem (v + 16) ≡ n → mem (v + 24) ≡ at → Holds h mem v n at

module _ (c : Consts) (h : Heap) (mem : Memory) (v : Value) (n at : ℕ) where
  as_slice_lem : Holds h mem v n at → as_slice c h mem v ≡ words mem at n
  unfolding as_slice
  as_slice_lem (embedded e ne p) =
      let bits = embed_bits (h.flags v) in
      let some_len : (bit_and (h.flags v) embed_len_mask == 0) ≡ false = ground (arith, bits) in
      let len : bit_and (h.flags v) embed_len_mask / 2 ^ 13 ≡ n = omega (arith, bits) in
      rw some_len (rw (len, p) refl)
  as_slice_lem (on_heap e l p) =
      let no_len : (bit_and (h.flags v) embed_len_mask == 0) ≡ true =
        ground (arith, embed_bits (h.flags v)) in
      let next : v + 16 + 8 ≡ v + 24 = omega arith in rw no_len (rw next (rw (l, p) refl))

  -- In this layout, `get` converts the member at an index below the number of members, and any other
  -- index is an IndexError.
  pub get-Holds :
      {T : Type 0} (convert : Value → Result T) (i : ℕ)
      → Holds h mem v n at
      → get c h mem convert v i ≡ (
          if ltb i n
          then convert (mem (at + i * 8))
          else err (error index_error "offset too large for struct"))
  unfolding get
  get-Holds convert i hold = rw (as_slice_lem hold) (
      rw (words-get mem at n i)
        (elim (Bool-cases (ltb i n)) [ inl e ↦ rw e refl | inr e ↦ rw e refl ]))
