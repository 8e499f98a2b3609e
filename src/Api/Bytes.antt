-- ===== src/Api/Bytes.antt =====
-- Bytes of UTF-8 text that is all white space, as `strings.TrimSpace` takes it.
use carbmq_core.Base.{ℕ, Bool, true, ◌&&◌, ◌||◌, List, [], ◌∷◌, leb, nat_eq}

-- the white space that is one byte, two and three bytes long
abbrev one_byte : ℕ → Bool
one_byte a = leb 9 a && leb a 13 || nat_eq a 32

abbrev two_bytes : (a b : ℕ) → Bool
two_bytes a b = nat_eq a 0xC2 && (nat_eq b 0x85 || nat_eq b 0xA0)

abbrev three_bytes : (a b c : ℕ) → Bool
three_bytes a b c =
    nat_eq a 0xE1 && nat_eq b 0x9A && nat_eq c 0x80
    || nat_eq a 0xE2
      && nat_eq b 0x80
      && (leb 0x80 c && leb c 0x8A || nat_eq c 0xA8 || nat_eq c 0xA9 || nat_eq c 0xAF)
    || nat_eq a 0xE2 && nat_eq b 0x81 && nat_eq c 0x9F
    || nat_eq a 0xE3 && nat_eq b 0x80 && nat_eq c 0x80

-- `len(strings.TrimSpace(string(bytes))) == 0`
unfoldable pub is_blank : List ℕ → Bool
is_blank [] = true
is_blank (a ∷ []) = one_byte a
is_blank (a ∷ b ∷ []) = one_byte a && one_byte b || two_bytes a b
is_blank (a ∷ b ∷ c ∷ rest) =
    let behind_one = is_blank (b ∷ c ∷ rest) in
    let behind_two = is_blank (c ∷ rest) in
    let behind_three = is_blank rest in
    one_byte a && behind_one || two_bytes a b && behind_two || three_bytes a b c && behind_three
