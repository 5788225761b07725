-- ===== src/InstanceId/Digits.antt =====
-- What the ids of src/ida_multi_mcp/instance_id.py spell: the digits of `id_loop`, read back.
use ida_multi_mcp.Prelude.{
  ℕ, zero, suc, ◌+◌, ◌-◌, ◌*◌, ◌/◌, ◌%◌, ◌^◌, ◌≤◌, ◌<◌, ◌≡◌, ◌⊎◌, refl, ap, ◌∙◌, Bool, true, ◌&&◌,
  ◌||◌, [], ◌∷◌, Text, length, take, get_or, leb, ◌==◌, arith, if◌then◌else◌,
}
use native.Mathlib.Nat.{mul_comm, mod-mod, pow-suc, div-add-mod, div-div-eq-div-mul}
use ida_multi_mcp.InstanceId.{
  base36_chars, Digest, from_bytes, id_loop, id_number, generate_instance_id,
}

-- The value of a digit 0-9a-z.
pub digit : ℕ → ℕ
digit c = if leb c b'9' then c - b'0' else c - 87

-- The number that a text of digits spells in base 36.
pub decode : Text → ℕ
decode [] = 0
decode (c ∷ cs) = digit c * 36 ^ length cs + decode cs

-- Holds of every character.
abbrev pub All : (ℕ → Type 0) → Text → Type 0
All P [] = Unit {0}
All P (c ∷ cs) = P c × All P cs

-- One of the characters 0-9 and a-z.
abbrev pub Base36 : ℕ → Type 0
Base36 c = ((b'0' ≤ c) × (c ≤ b'9')) ⊎ ((b'a' ≤ c) × (c ≤ b'z'))

check_digit : ℕ → Bool
check_digit d =
    let c = get_or base36_chars d 0 in
    digit c == d && ((leb b'0' c && leb c b'9') || (leb b'a' c && leb c b'z'))

-- The test holds of the digits 0 to `last`.
digits_pass : (ℕ → Bool) → ℕ → Bool
digits_pass test zero = test 0
digits_pass test (suc last) = test (suc last) && digits_pass test last

pass-digits_pass :
    (test : ℕ → Bool) (last d : ℕ) → d ≤ last → digits_pass test last ≡ true → test d ≡ true
unfolding digits_pass
pass-digits_pass test zero d le h = ground (arith)
pass-digits_pass test (suc last) d le h = ground (arith, pass-digits_pass test last d)

digit_table : digits_pass check_digit 35 ≡ true
unfolding digits_pass check_digit digit
digit_table = refl

digit-char : (d : ℕ) → d < 36 → check_digit d ≡ true
digit-char d h = pass-digits_pass check_digit 35 d (omega arith) digit_table

digit-Base36 :
    (d : ℕ) → d < 36 → (digit (get_or base36_chars d 0) ≡ d) × Base36 (get_or base36_chars d 0)
unfolding check_digit
digit-Base36 d h = let e = digit-char d h in ground arith

length-id_loop : (k n : ℕ) (r : Text) → length (id_loop k n r) ≡ k + length r
unfolding id_loop
length-id_loop zero n r = omega arith
length-id_loop (suc k) n r =
    omega (arith, length-id_loop k (n / 36) (get_or base36_chars (n % 36) 0 ∷ r))

mod_step : (n m : ℕ) → 0 < m → n % (36 * m) ≡ 36 * ((n / 36) % m) + n % 36
mod_step n m h = omega (
  arith,
  div-add-mod n (36 * m),
  div-add-mod (n / 36) m,
  ap (λ (t : ℕ). m * t) (div-div-eq-div-mul n 36 m),
  div-add-mod n 36,
)

pow36_pos : (k : ℕ) → 0 < 36 ^ k
pow36_pos zero = omega arith
pow36_pos (suc k) = omega (arith, pow36_pos k, pow-suc 36 k)

-- The digits that the loop puts in front of `r` spell `n` modulo 36 ^ k.
decode-id_loop :
    (k n : ℕ) (r : Text) → decode (id_loop k n r) ≡ n % 36 ^ k * 36 ^ length r + decode r
unfolding id_loop decode
decode-id_loop zero n r =
    let e : n % 1 ≡ 0 = omega arith in omega (arith, ap (λ (t : ℕ). t * 36 ^ length r) e)
decode-id_loop (suc k) n r =
    let c = get_or base36_chars (n % 36) 0 in
    let p = 36 ^ length r in
    omega (
      arith,
      decode-id_loop k (n / 36) (c ∷ r),
      pow-suc 36 (length r),
      ap (λ (t : ℕ). n / 36 % 36 ^ k * t) (pow-suc 36 (length r)),
      ap (λ (t : ℕ). t * p) (pow-suc 36 k),
      ap (λ (t : ℕ). n % t * p) (pow-suc 36 k ∙ mul_comm (36 ^ k) 36),
      ap (λ (t : ℕ). t * p) (mod_step n (36 ^ k) (pow36_pos k)),
      ap (λ (t : ℕ). t * p) (digit-Base36 (n % 36) (omega arith)).0,
    )

All-Base36-id_loop : (k n : ℕ) (r : Text) → All Base36 r → All Base36 (id_loop k n r)
unfolding id_loop
All-Base36-id_loop zero n r h = h
All-Base36-id_loop (suc k) n r h =
    All-Base36-id_loop k (n / 36) (get_or base36_chars (n % 36) 0 ∷ r)
      ((digit-Base36 (n % 36) (omega arith)).1, h)

module _ (digest : Digest) (pid port : ℕ) (idb_path : Text) (size : ℕ) where
  -- An id has the length asked for, consists of the characters 0-9 and a-z, and read in base 36 it
  -- spells the first four bytes of the digest, taken modulo 36 ^ size.
  pub generate_instance_id_lem :
      let id = generate_instance_id digest pid port idb_path size in
      (length id ≡ size) × All Base36 id × (decode id ≡ id_number (digest pid port idb_path) size)
  unfolding generate_instance_id decode
  generate_instance_id_lem =
      let n = id_number (digest pid port idb_path) size in
      (
        omega (arith, length-id_loop size n []),
        All-Base36-id_loop size n [] tt,
        omega (
          arith,
          decode-id_loop size n [],
          mod-mod (from_bytes 0 (take 4 (digest pid port idb_path))) (36 ^ size),
        ),
      )
