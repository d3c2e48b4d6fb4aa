-- ===== src/Engine/Classify.antt =====
-- engine/classify.go. A text is a list of bytes, and letters are ASCII. A loop over the text takes
-- fuel: each round shortens the text, so one more than its length is enough.
pub mod Fuel
pub mod Comments
use quicsql.Prelude.{
  Option, none, some, ℕ, zero, suc, ◌+◌, ◌-◌, Bool, true, false, ◌&&◌, ◌||◌, not, ◌==◌, nat_eq,
  bytes_eq, leb, if◌then◌else◌, List, [], ◌∷◌, map, String, length, drop, bytes_beq,
}
use quicsql.Encoding.Strings.{bytes, has_prefix}
use quicsql.Prelude.Result.{Result, ok, err}

-- The text behind a byte's first occurrence; nothing if there is none.
unfoldable pub after_byte : ℕ → List ℕ → List ℕ
after_byte b [] = []
after_byte b (c ∷ s) = if c == b then s else after_byte b s

-- The text behind the first `*/`; nothing if there is none.
unfoldable pub after_close : List ℕ → List ℕ
after_close [] = []
after_close (c ∷ s) = if has_prefix (b'*' ∷ b'/' ∷ []) (c ∷ s) then drop 1 s else after_close s

unfoldable pub is_blank : ℕ → Bool
is_blank c = c == 32 || c == 9 || c == 13 || c == 10 || c == 12

unfoldable pub trim_left : List ℕ → List ℕ
unfolding is_blank
trim_left [] = []
trim_left (c ∷ s) = let rest = trim_left s in if is_blank c then rest else c ∷ s

unfoldable pub take_word : List ℕ → List ℕ
unfolding is_blank
take_word [] = []
take_word (c ∷ s) = let rest = take_word s in if is_blank c || c == b'(' then [] else c ∷ rest

-- What a round of the loop finds at the start of the text.
pub data Start : Type 0 where
  line_comment block_comment word : List ℕ → Start

unfoldable pub start_of : List ℕ → Start
unfolding has_prefix after_byte after_close trim_left
start_of sql =
    let s = trim_left sql in
    if has_prefix (b'-' ∷ b'-' ∷ []) s
    then line_comment (after_byte 10 s)
    else if has_prefix (b'/' ∷ b'*' ∷ []) s
    then block_comment (after_close s)
    else word s

-- The loop of firstToken; `none` is that the fuel ran out.
unfoldable pub token_loop : ℕ → List ℕ → Option (List ℕ)
unfolding take_word
token_loop zero sql = none
token_loop (suc fuel) sql = elim (start_of sql) [
  | line_comment rest ↦ token_loop fuel rest
  | block_comment rest ↦ token_loop fuel rest
  | word s ↦ some (take_word s)
]

abbrev pub bom : List ℕ
bom = 0xef ∷ 0xbb ∷ 0xbf ∷ []

unfoldable pub trim_bom : List ℕ → List ℕ
unfolding has_prefix
trim_bom sql = if has_prefix bom sql then drop 3 sql else sql

abbrev pub or_empty : Option (List ℕ) → List ℕ
or_empty none = []
or_empty (some w) = w

-- With this fuel the loop returns.
unfoldable pub first_token : List ℕ → List ℕ
first_token sql = or_empty (token_loop (length sql + 1) (trim_bom sql))

abbrev pub upper : ℕ → ℕ
upper c = if leb b'a' c && leb c b'z' then c - 32 else c

abbrev pub keyword : List ℕ → List ℕ
keyword sql = map upper (first_token sql)

unfoldable pub is_read_only_keyword : List ℕ → Bool
is_read_only_keyword k =
    k == bytes "SELECT"
    || k == bytes "WITH"
    || k == bytes "EXPLAIN"
    || k == bytes "VALUES"
    || k == bytes "PRAGMA"

unfoldable pub is_attach_keyword : List ℕ → Bool
is_attach_keyword k = k == bytes "ATTACH" || k == bytes "DETACH"

is_word : ℕ → Bool
is_word c =
    (leb b'0' c && leb c b'9')
    || (leb b'A' c && leb c b'Z')
    || (leb b'a' c && leb c b'z')
    || c == b'_'

starts_word : List ℕ → Bool
starts_word [] = false
starts_word (c ∷ s) = is_word c

-- The pattern `(?i)\bRETURNING\b`, searched from a place behind a word character or not.
unfoldable pub returning_from : Bool → List ℕ → Bool
unfolding is_word starts_word has_prefix
returning_from behind [] = false
returning_from behind (c ∷ s) =
    (not behind
      && has_prefix (bytes "RETURNING") (map upper (c ∷ s))
      && not (starts_word (drop 9 (c ∷ s))))
    || returning_from (is_word c) s

unfoldable pub has_returning : List ℕ → Bool
unfolding returning_from
has_returning sql = returning_from false sql

unfoldable pub is_read_only : List ℕ → Bool
is_read_only sql = is_read_only_keyword (keyword sql) && not (has_returning sql)

unfoldable pub is_explain : List ℕ → Bool
is_explain sql = keyword sql == bytes "EXPLAIN"

pub data Route : Type 0 where
  denied query exec : Route

-- Where `Run` sends a statement.
unfoldable pub route : Bool → List ℕ → Route
route allow_attach sql =
    if is_attach_keyword (keyword sql) && not allow_attach
    then denied
    else if is_read_only_keyword (keyword sql) || has_returning sql
    then query
    else exec
