-- ===== src/Common/Bytes.antt =====
-- `std::string` as its list of bytes, with the members of it that the program calls.
pub mod Laws
use Prim.Native.Nat.{ℕ, suc, ◌-◌}
use Prim.Native.Char.{code}
use Prim.Native.String.{String}
use mathlib.Core.Bool.{Bool, true, false, ◌&&◌, ◌||◌}
use mathlib.Core.Option
use mathlib.Core.Option.{Option, none, some}
use mathlib.Core.List.{List, [], ◌∷◌}
use mqss_client.Common.Tests.{ltb, ◌==◌, if◌then◌else◌}
use mqss_client.Common.Lists.{length, drop}

abbrev pub Str : Type 0
Str = List ℕ

-- A literal of the source, as bytes.
abbrev pub txt : String → Str
txt String.[] = []
txt (String.◌∷◌ c s) = code c ∷ txt s

-- `==` on `std::string`.
unfoldable pub str_eq : Str → Str → Bool
str_eq [] [] = true
str_eq [] (_ ∷ _) = false
str_eq (_ ∷ _) [] = false
str_eq (x ∷ xs) (y ∷ ys) = x == y && str_eq xs ys

unfoldable pub is_empty : Str → Bool
is_empty [] = true
is_empty (_ ∷ _) = false

unfoldable pub starts_with : Str → Str → Bool
starts_with s [] = true
starts_with [] (_ ∷ _) = false
starts_with (x ∷ xs) (y ∷ ys) = x == y && starts_with xs ys

-- `s.find(t)`: the index of the first occurrence, `none` for `npos`.
unfoldable pub find : Str → Str → Option ℕ
find [] t = if starts_with [] t then some 0 else none
find (x ∷ xs) t = if starts_with (x ∷ xs) t then some 0 else Option.map suc (find xs t)

unfoldable pub any : (ℕ → Bool) → Str → Bool
any p [] = false
any p (x ∷ xs) = p x || any p xs

-- `s.size() > t.size() && s.compare(s.size() - t.size(), t.size(), t) == 0`
unfoldable pub ends_strictly_with : Str → Str → Bool
ends_strictly_with s t = ltb (length t) (length s) && str_eq (drop (length s - length t) s) t
