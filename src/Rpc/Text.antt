-- ===== src/Rpc/Text.antt =====
-- Byte strings: their comparison, and `IsValidUtf8` of bbt/infra/impl/ResultImpl.hpp.
use Prim.Native.Char.{code}
use Prim.Native.String.{String}
use bbtools_infra.Common.{
  ℕ, zero, suc, ◌+◌, ◌*◌, ◌/◌, ◌%◌, ◌^◌, Bool, true, false, ◌&&◌, ◌||◌, not, Option, none, some,
  List, [], ◌∷◌, ltb, leb, ◌==◌, if◌then◌else◌, is_empty, length, take, drop,
}

-- The bytes of a text of ASCII characters.
abbrev pub codes : String → List ℕ
codes String.[] = []
codes (String.◌∷◌ c s) = code c ∷ codes s

abbrev pub same_bytes : List ℕ → List ℕ → Bool
same_bytes [] [] = true
same_bytes [] (y ∷ ys) = false
same_bytes (x ∷ xs) [] = false
same_bytes (x ∷ xs) (y ∷ ys) = (x == y) && same_bytes xs ys

-- `key.rfind(prefix, 0) == 0`.
abbrev pub starts_with : List ℕ → List ℕ → Bool
starts_with prefix bytes = same_bytes (take (length prefix) bytes) prefix

-- The count of continuation bytes that a lead byte announces, the bits of the code point that it
-- carries, and the least code point of that length; none for a byte that leads nothing.
pub record Lead : Type 0 where
  pub cont : ℕ
  pub bits : ℕ
  pub lowest : ℕ

unfoldable pub lead : ℕ → Option Lead
lead c =
    if c / 32 == 6
    then some (record { cont = 1; bits = c % 32; lowest = 2 ^ 7 })
    else if c / 16 == 14
    then some (record { cont = 2; bits = c % 16; lowest = 2 ^ 11 })
    else if c / 8 == 30
    then some (record { cont = 3; bits = c % 8; lowest = 2 ^ 16 })
    else none

-- The loop on the continuation bytes: `code << 6 | t & 0x3F`, and none for any other byte.
unfoldable pub continue_with : ℕ → List ℕ → Option ℕ
continue_with point [] = some point
continue_with point (t ∷ ts) =
    let rest = continue_with (point * 64 + t % 64) ts in if t / 64 == 2 then rest else none

unfoldable pub is_scalar : ℕ → Option ℕ → Bool
is_scalar lowest none = false
is_scalar lowest (some point) =
    not (ltb point lowest || ltb 1114111 point) && not (leb 55296 point && leb point 57343)

unfoldable pub is_sequence : Option Lead → List ℕ → Bool
is_sequence none rest = false
is_sequence (some l) rest =
    not (ltb (length rest) l.cont) && is_scalar l.lowest (continue_with l.bits (take l.cont rest))

unfoldable pub skipped : ℕ → Option Lead → ℕ
skipped c none = 0
skipped c (some l) = if ltb c 128 then 0 else l.cont

-- The `while` loop. Its fuel is the count of bytes, of which every round uses one at least.
unfoldable pub utf8_loop : ℕ → List ℕ → Bool
utf8_loop zero bytes = is_empty bytes
utf8_loop (suc fuel) [] = true
utf8_loop (suc fuel) (c ∷ rest) =
    let next = utf8_loop fuel (drop (skipped c (lead c)) rest) in
    if ltb c 128 then next else if is_sequence (lead c) rest then next else false

unfoldable pub is_valid_utf8 : List ℕ → Bool
is_valid_utf8 bytes = utf8_loop (length bytes) bytes
