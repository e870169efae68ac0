-- ===== src/Prelude/Paths.antt =====
-- path/filepath, as far as the program uses it: cleaned paths and Join, without symbolic links.
use mathlib.Core.List.{append-nil, append_assoc}
use seawise_client.Prelude.Bytes.{◌==◌, ==_refl, has_prefix, lit, split_from, Bytes, split}
use seawise_client.Prelude.{
  ◌≡◌, refl, ap, inl, inr, Bool, true, false, not, ◌&&◌, ◌||◌, List, [], ◌∷◌, ◌++◌, arith, eqb,
  Bool-cases, all, ◌∙◌, is_empty,
}
use seawise_client.Prelude.Tests.{if◌then◌else◌}

-- A cleaned path: whether it starts at the root, and its parts, the innermost one first.
pub record FilePath : Type 0 where
  pub rooted : Bool
  pub parts : List Bytes

-- One element ".." of a path.
unfoldable pub go_up : Bool → List Bytes → List Bytes
go_up true [] = []
go_up false [] = lit ".." ∷ []
go_up rooted (top ∷ below) = if top == lit ".." then lit ".." ∷ top ∷ below else below

unfoldable pub add_part : Bool → Bytes → List Bytes → List Bytes
unfolding go_up
add_part rooted part parts =
    if is_empty part || part == lit "."
    then parts
    else if part == lit ".."
    then go_up rooted parts
    else part ∷ parts

unfoldable pub add_parts : Bool → List Bytes → List Bytes → List Bytes
unfolding add_part
add_parts rooted [] parts = parts
add_parts rooted (x ∷ xs) parts = add_parts rooted xs (add_part rooted x parts)

-- filepath.Clean
unfoldable pub clean : Bytes → FilePath
unfolding add_parts
clean text =
    let rooted = has_prefix text (b'/' ∷ []) in
    record { rooted = rooted; parts = add_parts rooted (split b'/' text) [] }

-- filepath.Join of a path and a name.
unfoldable pub join : FilePath → Bytes → FilePath
unfolding add_parts
join dir name = record dir { parts = add_parts dir.rooted (split b'/' name) dir.parts }

-- The entry of that name directly in a directory.
abbrev pub child : FilePath → Bytes → FilePath
child dir name = record dir { parts = name ∷ dir.parts }

same_parts : List Bytes → List Bytes → Bool
same_parts [] [] = true
same_parts [] (y ∷ ys) = false
same_parts (x ∷ xs) [] = false
same_parts (x ∷ xs) (y ∷ ys) = x == y && same_parts xs ys

unfoldable pub same_path : FilePath → FilePath → Bool
unfolding same_parts
same_path p q = (if p.rooted then q.rooted else not q.rooted) && same_parts p.parts q.parts

text_onto : List Bytes → Bytes → Bytes
text_onto [] rest = rest
text_onto (x ∷ []) rest = x ++ rest
text_onto (x ∷ y ∷ xs) rest = text_onto (y ∷ xs) (b'/' ∷ (x ++ rest))

-- The text of a cleaned path.
unfoldable pub text_of : FilePath → Bytes
unfolding text_onto
text_of p =
    if p.rooted
    then b'/' ∷ text_onto p.parts []
    else if is_empty p.parts
    then lit "."
    else text_onto p.parts []

-- A name without a slash that is not a dot or two.
unfoldable pub is_plain : Bytes → Bool
is_plain name =
    all (λ c. not (eqb c b'/')) name && not (is_empty name || name == lit "." || name == lit "..")

split_from_plain :
    (name cur : Bytes)
    → all (λ c. not (eqb c b'/')) name ≡ true
    → split_from b'/' cur name ≡ (cur ++ name) ∷ []
unfolding split_from
split_from_plain [] cur h = rw append-nil refl
split_from_plain (c ∷ name) cur h = elim (Bool-cases (eqb c b'/')) [
  | inl e ↦ absurd (ground arith)
  | inr e ↦ rw e (
      split_from_plain name (cur ++ c ∷ []) (ground arith)
      ∙ ap (λ x. x ∷ []) (append_assoc cur (c ∷ []) name))
]

-- Joining a plain name leads to the entry of that name, and nowhere else.
pub join-child :
    (dir : FilePath) (name : Bytes) → is_plain name ≡ true → join dir name ≡ child dir name
unfolding join add_parts add_part is_plain split
join-child dir name h = rw (split_from_plain name [] (ground arith)) (ground arith)

same_parts_refl : (xs : List Bytes) → same_parts xs xs ≡ true
unfolding same_parts
same_parts_refl [] = refl
same_parts_refl (x ∷ xs) = ground (arith, ==_refl x, same_parts_refl xs)

pub same_path-child :
    (dir : FilePath) (a b : Bytes) → same_path (child dir a) (child dir b) ≡ (a == b)
unfolding same_path same_parts
same_path-child dir a b = ground (arith, same_parts_refl dir.parts, ==_refl a)
