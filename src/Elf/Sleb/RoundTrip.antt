-- ===== src/Elf/Sleb/RoundTrip.antt =====
-- xh_elf_sleb128_decoder_next reads back what the SLEB128 encoding of DWARF writes.
use native.Mathlib.Nat.{
  pow-suc, one-le-pow, zero-mod, suc-mul, le-mul_of_pos_right, add-zero, add-suc, mul-le-mul_right,
  div-add-mod, mod-eq_of_lt, add-mul-mod_self_left, mul_comm, mod-lt, mul-mod_left,
}
use native.Mathlib.Numerals.{towards_suc}
use elf_hook_test.Base.{
  false, leb, ℕ, zero, suc, ◌+◌, ◌-◌, ◌*◌, ◌/◌, ◌%◌, ◌^◌, ◌<◌, ◌≤◌, ◌≡◌, inl, inr, refl, ap, sym,
  subst, ◌∙◌, arith, List, [], ◌∷◌, ◌++◌, Option, some, ◌==◌, ltb, ◌&&◌, not, if◌then◌else◌,
  bit_and, bit_or, Bool-cases,
}
use elf_hook_test.Base.Int.{ℤ, pos, negsuc}
use elf_hook_test.Base.Bits.{bit_and_mask, bit_and_field, bit_or_high, bit_or-zero, mul-two-pow}
use elf_hook_test.Elf.Sleb.{sleb_loop, sleb128_decoder_next}

-- The two's complement number of `w` bits, and whether there is one.
abbrev pub to_word : ℕ → ℤ → ℕ
to_word w (pos n) = n
to_word w (negsuc n) = 2 ^ w - 1 - n

abbrev pub magnitude : ℤ → ℕ
magnitude (pos n) = n
magnitude (negsuc n) = n

abbrev pub Fits : ℕ → ℤ → Type 0
Fits w z = magnitude z < 2 ^ (w - 1)

-- Groups of seven bits, lowest first; all but the last have bit 7 set. `more` bytes follow the first.
unfoldable pub groups : (more : ℕ) → ℕ → List ℕ
groups zero x = x ∷ []
groups (suc more) x = (x % 128 + 128) ∷ groups more (x / 128)

abbrev pub width : ℕ → ℕ
width more = 7 * suc more

unfoldable pub sleb128_encode : (more : ℕ) → ℤ → List ℕ
unfolding groups
sleb128_encode more z = groups more (to_word (width more) z)

pow-add : (a e : ℕ) → 2 ^ (a + e) ≡ 2 ^ a * 2 ^ e
pow-add a zero = omega (arith, ap (λ (t : ℕ). 2 ^ t) (add-zero a))
pow-add a (suc e) = omega (
  arith,
  ap (λ (t : ℕ). 2 ^ t) (add-suc a e),
  pow-suc 2 (a + e),
  pow-add a e,
  mul-two-pow (2 ^ a) e,
)

mod_unique : (a r k m : ℕ) → a ≡ r + m * k → r < m → a % m ≡ r
mod_unique a r k m e lt = ap (λ (t : ℕ). t % m) e ∙ add-mul-mod_self_left r m k ∙ mod-eq_of_lt lt

split_group : (d p q : ℕ) → d * p ≡ d % q * p + p * q * (d / q)
split_group d p q = grind (arith, ap (λ (t : ℕ). t * p) (div-add-mod d q))

-- A group above `y`, cut off at `p * q`.
group_low : (d y p q : ℕ) → y < p → 0 < q → y + d % q * p < p * q
group_low d y p q lt hq = grind (arith, mul-le-mul_right p (mod-lt d hq), mul_comm p q)

or_group_low :
    (d y shift e : ℕ)
    → y < 2 ^ shift
    → bit_or (y % 2 ^ (shift + e)) (d * 2 ^ shift % 2 ^ (shift + e))
      ≡ (y + d * 2 ^ shift) % 2 ^ (shift + e)
or_group_low d y shift e lt =
    let p : ℕ = 2 ^ shift in
    let q : ℕ = 2 ^ e in
    let hq : 0 < q = one-le-pow e 2 (omega arith) in
    let fits = group_low d y p q lt hq in
    let low : y % (p * q) ≡ y = mod-eq_of_lt (omega (arith, fits)) in
    let high : d * p % (p * q) ≡ d % q * p =
      mod_unique (d * p) (d % q * p) (d / q) (p * q) (split_group d p q) (omega (arith, fits)) in
    let both : (y + d * p) % (p * q) ≡ y + d % q * p =
      mod_unique (y + d * p) (y + d % q * p) (d / q) (p * q) (omega (arith, split_group d p q))
        fits in
    rw (pow-add shift e, low, high, both) (bit_or_high shift y (d % q) lt)

or_group_past :
    (d y bits e : ℕ)
    → bit_or (y % 2 ^ bits) (d * 2 ^ (bits + e) % 2 ^ bits) ≡ (y + d * 2 ^ (bits + e)) % 2 ^ bits
or_group_past d y bits e =
    let p : ℕ = 2 ^ bits in
    let q : ℕ = 2 ^ e in
    let whole : d * (p * q) ≡ p * (d * q) = grind arith in
    let gone : p * (d * q) % p ≡ 0 =
      ap (λ (t : ℕ). t % p) (mul_comm p (d * q)) ∙ mul-mod_left (d * q) p in
    rw (pow-add bits e, whole, gone, bit_or-zero, add-mul-mod_self_left y p (d * q)) refl

or_group :
    (bits d y shift : ℕ)
    → y < 2 ^ shift
    → bit_or (y % 2 ^ bits) (d * 2 ^ shift % 2 ^ bits) ≡ (y + d * 2 ^ shift) % 2 ^ bits
or_group bits d y shift lt = elim (Bool-cases (ltb shift bits)) [
  | inl below ↦
      let e : shift + (bits - shift) ≡ bits = ground arith in
      subst (λ b. bit_or (y % 2 ^ b) (d * 2 ^ shift % 2 ^ b) ≡ (y + d * 2 ^ shift) % 2 ^ b) e
        (or_group_low d y shift (bits - shift) lt)
  | inr past ↦
      let e : bits + (shift - bits) ≡ shift = ground arith in
      subst (λ s. bit_or (y % 2 ^ bits) (d * 2 ^ s % 2 ^ bits) ≡ (y + d * 2 ^ s) % 2 ^ bits) e
        (or_group_past d y bits (shift - bits))
]

two-pow-add_seven : (k : ℕ) → 2 ^ (k + 7) ≡ 128 * 2 ^ k
two-pow-add_seven k = simp towards_suc (omega arith)

wider : (more : ℕ) → 2 ^ width (suc more) ≡ 128 * 2 ^ width more
wider more = ap (λ (t : ℕ). 2 ^ t) (omega arith) ∙ two-pow-add_seven (width more)

-- The last byte.
abbrev last : (more : ℕ) → ℕ → ℕ
last zero x = x
last (suc more) x = last more (x / 128)

last_byte : (x : ℕ) → x < 128 → (bit_and x 127 ≡ x) × (bit_and x 128 ≡ 0)
last_byte x lt = omega (arith, bit_and_mask 7 x, bit_and_field 7 1 x)

inner_byte : (g : ℕ) → g < 128 → (bit_and (g + 128) 127 ≡ g) × (bit_and (g + 128) 128 ≡ 128)
inner_byte g lt = omega (arith, bit_and_mask 7 (g + 128), bit_and_field 7 1 (g + 128))

join : (x y p r : ℕ) → r ≡ 128 * p → y + x % 128 * p + x / 128 * r ≡ y + x * p
join x y p r e =
    grind (arith, ap (λ (t : ℕ). t * p) (div-add-mod x 128), ap (λ (t : ℕ). x / 128 * t) e)

group_fits : (g y p r : ℕ) → g < 128 → y < p → r ≡ 128 * p → y + g * p < r
group_fits g y p r hg hy e = grind (arith, mul-le-mul_right {m = suc g} p hg)

not_past : (bits shift : ℕ) → shift < bits → leb bits shift ≡ false
not_past bits shift h = ground arith

sleb_loop-groups :
    (bits more x y shift : ℕ) (rest : List ℕ)
    → shift + 7 * more < bits
    → x < 2 ^ width more
    → y < 2 ^ shift
    → sleb_loop bits (groups more x ++ rest) (y % 2 ^ bits) shift
      ≡ some ((y + x * 2 ^ shift) % 2 ^ bits, shift + width more, last more x, rest)
unfolding sleb_loop groups
sleb_loop-groups bits zero x y shift rest inside fits low =
    let (seven, top) = last_byte x fits in
    rw (not_past bits shift (omega arith), seven, top, or_group bits x y shift low) refl
sleb_loop-groups bits (suc more) x y shift rest inside fits low =
    let g : ℕ = x % 128 in
    let (seven, top) = inner_byte g (omega arith) in
    let low' : y + g * 2 ^ shift < 2 ^ (shift + 7) =
      group_fits g y (2 ^ shift) (2 ^ (shift + 7)) (omega arith) low (two-pow-add_seven shift) in
    let fits' : x / 128 < 2 ^ width more = omega (arith, wider more) in
    rw
      (
        not_past bits shift (omega arith),
        seven,
        top,
        or_group bits g y shift low,
        sleb_loop-groups bits more (x / 128) (y + g * 2 ^ shift) (shift + 7) rest (omega arith)
            fits' low',
        join x y (2 ^ shift) (2 ^ (shift + 7)) (two-pow-add_seven shift),
      )
      (ap (λ (w : ℕ). some ((y + x * 2 ^ shift) % 2 ^ bits, w, last more (x / 128), rest))
        (omega arith))

half_wider : (more : ℕ) → 2 ^ (width (suc more) - 1) ≡ 128 * 2 ^ (width more - 1)
half_wider more = ap (λ (t : ℕ). 2 ^ t) (omega arith) ∙ two-pow-add_seven (width more - 1)

half : (k : ℕ) → 2 ^ suc k ≡ 2 * 2 ^ k
half k = omega (arith, pow-suc 2 k)

-- Bit 6 of the last byte is the sign.
last_sign :
    (more x : ℕ)
    → x < 2 ^ width more
    → (x < 2 ^ (width more - 1) → bit_and (last more x) 64 ≡ 0)
      × (2 ^ (width more - 1) ≤ x → bit_and (last more x) 64 ≡ 64)
last_sign zero x fits =
    (λ h. omega (arith, bit_and_field 6 1 x), λ h. omega (arith, bit_and_field 6 1 x))
last_sign (suc more) x fits =
    let ih = last_sign more (x / 128) (omega (arith, wider more)) in
    (λ h. ih.0 (omega (arith, half_wider more)), λ h. ih.1 (omega (arith, half_wider more)))

suc-sub : (k : ℕ) → suc k - 1 ≡ k
suc-sub k = omega arith

half_le : (k : ℕ) → 2 ^ (k - 1) ≤ 2 ^ k
half_le zero = omega arith
half_le (suc k) = omega (arith, half k, ap (λ (t : ℕ). 2 ^ t) (suc-sub k))

pred_mul : (q p : ℕ) → 0 < q → (q - 1) * p + p ≡ q * p
pred_mul zero p h = absurd (omega arith)
pred_mul (suc k) p h = omega (arith, ap (λ (t : ℕ). t * p) (suc-sub k), suc-mul k p)

sign_bits : (w e x : ℕ) → x < 2 ^ w → bit_or x (2 ^ (w + e) - 2 ^ w) ≡ x + (2 ^ (w + e) - 2 ^ w)
sign_bits w e x fits =
    let q : ℕ = 2 ^ e in
    let above : 2 ^ (w + e) - 2 ^ w ≡ (q - 1) * 2 ^ w =
      omega (
        arith,
        pow-add w e,
        pred_mul q (2 ^ w) (one-le-pow e 2 (omega arith)),
        mul_comm (2 ^ w) q,
      ) in
    ap (bit_or x) above ∙ bit_or_high w x (q - 1) fits ∙ ap (λ (t : ℕ). x + t) (sym above)

start :
    (bits more x : ℕ) (rest : List ℕ)
    → 7 * more < bits
    → x < 2 ^ width more
    → sleb_loop bits (groups more x ++ rest) 0 0
      ≡ some (x % 2 ^ bits, width more, last more x, rest)
start bits more x rest inside fits =
    let one_place : (0 + x * 2 ^ 0) % 2 ^ bits ≡ x % 2 ^ bits =
      ap (λ (t : ℕ). t % 2 ^ bits) (omega arith) in
    let none_read : 0 + width more ≡ width more = omega arith in
    rw (zero-mod (2 ^ bits)) at
      (sleb_loop-groups bits more x 0 0 rest (omega arith) fits (omega arith))
    ∙ (λ j. some (one_place j, none_read j, last more x, rest))

-- The end of the decoder, behind the loop.
finish : (bits value shift byte : ℕ) → ℕ
finish bits value shift byte =
    if ltb shift bits && not (bit_and byte 64 == 0)
    then bit_or value (2 ^ bits - 2 ^ shift)
    else value

finish_pos :
    (bits n shift byte : ℕ)
    → n < 2 ^ bits
    → bit_and byte 64 ≡ 0
    → finish bits (n % 2 ^ bits) shift byte ≡ n
unfolding finish
finish_pos bits n shift byte fits plain =
    let same : n % 2 ^ bits ≡ n = mod-eq_of_lt fits in ground (arith, same)

negsuc_low :
    (shift e n : ℕ)
    → n < 2 ^ shift
    → bit_or ((2 ^ shift - 1 - n) % 2 ^ (shift + e)) (2 ^ (shift + e) - 2 ^ shift)
      ≡ 2 ^ (shift + e) - 1 - n
negsuc_low shift e n low =
    let wide : 2 ^ shift ≤ 2 ^ (shift + e) = omega (
      arith,
      pow-add shift e,
      le-mul_of_pos_right {m = 2 ^ e} (2 ^ shift) (one-le-pow e 2 (omega arith)),
    ) in
    let same : (2 ^ shift - 1 - n) % 2 ^ (shift + e) ≡ 2 ^ shift - 1 - n =
      mod-eq_of_lt (omega arith) in
    rw same (omega (arith, sign_bits shift e (2 ^ shift - 1 - n) (omega arith)))

negsuc_past : (bits e n : ℕ) → n < 2 ^ bits → (2 ^ (bits + e) - 1 - n) % 2 ^ bits ≡ 2 ^ bits - 1 - n
negsuc_past bits e n fits =
    mod_unique (2 ^ (bits + e) - 1 - n) (2 ^ bits - 1 - n) (2 ^ e - 1) (2 ^ bits)
      (omega (
        arith,
        pow-add bits e,
        pred_mul (2 ^ e) (2 ^ bits) (one-le-pow e 2 (omega arith)),
        mul_comm (2 ^ bits) (2 ^ e),
        mul_comm (2 ^ bits) (2 ^ e - 1),
      ))
      (omega arith)

finish_negsuc :
    (bits n shift byte : ℕ)
    → n < 2 ^ bits
    → n < 2 ^ shift
    → bit_and byte 64 ≡ 64
    → finish bits ((2 ^ shift - 1 - n) % 2 ^ bits) shift byte ≡ 2 ^ bits - 1 - n
unfolding finish
finish_negsuc bits n shift byte fits low sign = elim (Bool-cases (ltb shift bits)) [
  | inl below ↦
      let e : shift + (bits - shift) ≡ bits = ground arith in
      rw (below, sign)
        (subst (λ b. bit_or ((2 ^ shift - 1 - n) % 2 ^ b) (2 ^ b - 2 ^ shift) ≡ 2 ^ b - 1 - n) e
          (negsuc_low shift (bits - shift) n low))
  | inr past ↦
      let e : bits + (shift - bits) ≡ shift = ground arith in
      rw past (
        subst (λ s. (2 ^ s - 1 - n) % 2 ^ bits ≡ 2 ^ bits - 1 - n) e
          (negsuc_past bits (shift - bits) n fits))
]

double_half : (more : ℕ) → 2 ^ width more ≡ 2 * 2 ^ (width more - 1)
double_half more = ap (λ (t : ℕ). 2 ^ t) (omega arith) ∙ half (width more - 1)

ends :
    (bits value shift byte : ℕ) (rest : List ℕ)
    → if◌then◌else◌ {A = Option (ℕ × List ℕ)}
        (ltb shift bits && not (bit_and byte 64 == 0))
        (some (bit_or value (2 ^ bits - 2 ^ shift), rest))
        (some (value, rest))
      ≡ some (finish bits value shift byte, rest)
unfolding finish
ends bits value shift byte rest = ground arith

-- Reading back a number with a sign, from an encoding of any number of bytes whose shifts are below the
-- width of the word, where the number fits these bytes and the word: the decoder answers with its
-- two's complement word, and leaves the bytes behind it.
pub sleb128_decoder_next-encode :
    (bits more : ℕ) (z : ℤ) (rest : List ℕ)
    → 7 * more < bits
    → Fits bits z
    → Fits (width more) z
    → sleb128_decoder_next bits (sleb128_encode more z ++ rest) ≡ some (to_word bits z, rest)
unfolding sleb128_decoder_next sleb128_encode
sleb128_decoder_next-encode bits more (pos n) rest inside fits fits' =
    let x_fits : n < 2 ^ width more = omega (arith, half_le (width more)) in
    let word_fits : n < 2 ^ bits = omega (arith, half_le bits) in
    rw (sleb128_decoder_next, start bits more n rest inside x_fits)
      (ends bits (n % 2 ^ bits) (width more) (last more n) rest
        ∙ ap (λ (v : ℕ). some (v, rest))
            (finish_pos bits n (width more) (last more n) word_fits
              ((last_sign more n x_fits).0 fits')))
sleb128_decoder_next-encode bits more (negsuc n) rest inside fits fits' =
    let x : ℕ = 2 ^ width more - 1 - n in
    let n_fits : n < 2 ^ width more = omega (arith, half_le (width more)) in
    let x_fits : x < 2 ^ width more = omega arith in
    let word_fits : n < 2 ^ bits = omega (arith, half_le bits) in
    let high : 2 ^ (width more - 1) ≤ x = omega (arith, double_half more) in
    rw (sleb128_decoder_next, start bits more x rest inside x_fits)
      (ends bits (x % 2 ^ bits) (width more) (last more x) rest
        ∙ ap (λ (v : ℕ). some (v, rest))
            (finish_negsuc bits n (width more) (last more x) word_fits n_fits
              ((last_sign more x x_fits).1 high)))
