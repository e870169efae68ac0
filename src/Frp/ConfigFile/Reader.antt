-- ===== src/Frp/ConfigFile/Reader.antt =====
-- A reader of TOML, as far as frpc.toml needs it: comments, tables, and keys with a string, an
-- integer or true. Basic strings have the escapes that the template writes. The tables are the root, the proxies, which are counted, and their plugins.
use seawise_client.Frp.ConfigFile.Decimal.{
  read_int-int_text, first_digit, decimal, is_digit, int_text, read_int,
}
use seawise_client.Frp.Toml.{read_string}
use seawise_client.Frp.ConfigFile.Text.{is_document}
use seawise_client.Prelude.Bytes.{lit, split, ◌==◌, Bytes}
use seawise_client.Prelude.{
  ℕ, suc, ◌≡◌, refl, sym, ap, inl, inr, Bool, true, not, ◌&&◌, Option, none, some, List, [], ◌∷◌,
  ◌++◌, arith, eqb, if◌then◌else◌, Bool-cases, all, ℤ, pos, negsuc, ◌∙◌, take, drop, is_empty,
}
use mathlib.Core.Option

pub data Value : Type 0 where
  string : Bytes → Value
  integer : ℤ → Value
  yes_value : Value

pub data Table : Type 0 where
  root : Table
  proxy plugin : ℕ → Table

pub record Entry : Type 0 where
  pub table : Table
  pub key : Bytes
  pub value : Value

-- How many proxies come before the next one.
unfoldable pub proxies_before : Table → ℕ
proxies_before root = 0
proxies_before (proxy i) = suc i
proxies_before (plugin i) = suc i

-- The plugin's table is one of the proxy under way, and there is one at most.
unfoldable pub its_plugin : Table → Option Table
its_plugin (proxy i) = some (plugin i)
its_plugin root = none
its_plugin (plugin i) = none

unfoldable pub next_table : Bytes → Table → Option Table
unfolding proxies_before its_plugin
next_table header t =
    if header == lit "[[proxies]]"
    then some (proxy (proxies_before t))
    else if header == lit "[proxies.plugin]"
    then its_plugin t
    else none

-- A string has to end the line.
whole_string : Option (Bytes × Bytes) → Option Value
whole_string none = none
whole_string (some (s, [])) = some (string s)
whole_string (some (s, c ∷ rest)) = none

unfoldable pub read_value : Bytes → Option Value
unfolding whole_string
read_value [] = none
read_value (c ∷ cs) =
    if eqb c b'"'
    then whole_string (read_string cs)
    else if c ∷ cs == lit "true"
    then some yes_value
    else Option.map integer (read_int (c ∷ cs))

-- The key is what stands before the first space, and an equals sign and a space follow.
unfoldable pub read_pair : Bytes → Option (Bytes × Value)
unfolding read_value
read_pair [] = none
read_pair (c ∷ cs) =
    let later = Option.map (λ (k, v). (c ∷ k, v)) (read_pair cs) in
    if eqb c b' '
    then (if take 2 cs == lit "= "
        then Option.map (λ v. ([], v)) (read_value (drop 2 cs))
        else none)
    else later

pub data LineKind : Type 0 where
  skipped names_table sets_key : LineKind

unfoldable pub kind_of : Bytes → LineKind
kind_of [] = skipped
kind_of (c ∷ cs) = if eqb c b'#' then skipped else if eqb c b'[' then names_table else sets_key

set_entry : Table → Option (Bytes × Value) → Option (List Entry) → Option (List Entry)
set_entry t none rest = none
set_entry t (some (k, v)) rest =
    Option.map (λ es. record { table = t; key = k; value = v } ∷ es) rest

read_line : LineKind → Table → Bytes → (Table → Option (List Entry)) → Option (List Entry)
read_line skipped t l after = after t
read_line names_table t l after = elim (next_table l t) [ none ↦ none | some t' ↦ after t' ]
read_line sets_key t l after = set_entry t (read_pair l) (after t)

unfoldable pub read_lines : Table → List Bytes → Option (List Entry)
unfolding kind_of read_line next_table set_entry
read_lines t [] = some []
read_lines t (l ∷ ls) = read_line (kind_of l) t l (λ t'. read_lines t' ls)

unfoldable pub read_document : Bytes → Option (List Entry)
unfolding read_lines
read_document text = if is_document text then read_lines root (split b'\n' text) else none

abbrev is_key_byte : ℕ → Bool
is_key_byte c = not (eqb c b' ') && not (eqb c b'#') && not (eqb c b'[')

-- A key that is one word of its own.
unfoldable pub is_key : Bytes → Bool
is_key key = not (is_empty key) && all is_key_byte key

longer_key :
    (c : ℕ) (key : Bytes) (o : Option Value)
    → Option.map {A = Bytes × Value} {B = Bytes × Value}
        (λ (k, v). (c ∷ k, v))
        (Option.map (λ v. (key, v)) o)
      ≡ Option.map (λ v. (c ∷ key, v)) o
longer_key c key none = refl
longer_key c key (some v) = refl

read_pair-key :
    (key rest : Bytes)
    → all is_key_byte key ≡ true
    → read_pair (key ++ (lit " = " ++ rest)) ≡ Option.map (λ v. (key, v)) (read_value rest)
unfolding read_pair lit ◌==◌
read_pair-key [] rest h = refl
read_pair-key (c ∷ key) rest h = elim (Bool-cases (eqb c b' ')) [
  | inl e ↦ absurd (ground arith)
  | inr e ↦ rw e (rw (read_pair-key key rest (ground arith)) (longer_key c key (read_value rest)))
]

kind_of-key : (key rest : Bytes) → is_key key ≡ true → kind_of (key ++ rest) ≡ sets_key
unfolding kind_of is_key
kind_of-key [] rest h = cc
kind_of-key (c ∷ key) rest h = ground arith

-- A line that sets a key to a value that can be read.
pub read_lines-key :
    (t : Table) (key rest : Bytes) (v : Value) (ls : List Bytes)
    → is_key key ≡ true
    → read_value rest ≡ some v
    → read_lines t ((key ++ (lit " = " ++ rest)) ∷ ls)
      ≡ Option.map (λ es. record { table = t; key = key; value = v } ∷ es) (read_lines t ls)
unfolding read_lines read_line is_key set_entry
read_lines-key t key rest v ls h k =
    rw (kind_of-key key (lit " = " ++ rest) h, read_lines)
      (rw (read_pair-key key rest (ground arith)) (rw k refl))

abbrev pub set : Table → Bytes → Value → Entry
set t key value = record { table = t; key = key; value = value }

read_value-digit :
    (c : ℕ) (cs : Bytes)
    → is_digit c ≡ true
    → read_value (c ∷ cs) ≡ Option.map integer (read_int (c ∷ cs))
unfolding read_value lit ◌==◌
read_value-digit c cs h = ground arith

pub read_value-int_text : (n : ℤ) → read_value (int_text n) ≡ some (integer n)
unfolding read_value int_text decimal lit ◌==◌
read_value-int_text (pos n) =
    let (c, cs, e, d) = first_digit n n (omega arith) in
    let read = read_int-int_text (pos n) in
    rw e (read_value-digit c cs d ∙ ap (Option.map integer) (ap read_int (sym e) ∙ read))
read_value-int_text (negsuc n) = ap (Option.map integer) (read_int-int_text (negsuc n))

module _ (t : Table) (l : Bytes) (ls : List Bytes) (es : List Entry) where
  pub read_lines_skipped :
      kind_of l ≡ skipped → read_lines t ls ≡ some es → read_lines t (l ∷ ls) ≡ some es
  unfolding read_lines read_line
  read_lines_skipped h k = rw (h, read_lines) k

  pub read_lines-next_table :
      (t' : Table)
      → kind_of l ≡ names_table
      → next_table l t ≡ some t'
      → read_lines t' ls ≡ some es
      → read_lines t (l ∷ ls) ≡ some es
  unfolding read_lines read_line
  read_lines-next_table t' h e k = rw (h, read_lines) (rw (e, read_line) k)
