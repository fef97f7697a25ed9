-- ===== src/Tui/Syntax.antt =====
-- The colouring of a line of disassembly: src/tui/syntax.cpp. Positions in the text are the rest of
-- the text from there on.
use voidwalk.Common.{
  ℕ, zero, suc, ◌+◌, ◌==◌, leb, if◌then◌else◌, Bool, true, false, not, ◌&&◌, ◌||◌, String, List, [],
  ◌∷◌, ◌++◌, map, length, bytes_eq, Text, codes,
}

-- The roles that tokenize gives, of the enumeration Role; `syn_text` is Role::Text.
pub data Role : Type 0 where
  syn_text muted syn_mnemonic syn_jump syn_register syn_immediate syn_target syn_punct : Role

pub record Token : Type 0 where
  pub text : Text
  pub role : Role

-- `count(w) != 0` of a set of words
unfoldable pub one_of : List String → Text → Bool
unfolding bytes_eq
one_of [] w = false
one_of (s ∷ words) w = bytes_eq (codes s) w || one_of words w

unfoldable pub member : List Text → Text → Bool
unfolding bytes_eq
member [] w = false
member (s ∷ words) w = bytes_eq s w || member words w

unfoldable pub is_prefix_word : Text → Bool
unfolding one_of
is_prefix_word w =
    one_of
      ("lock" ∷ "rep" ∷ "repne" ∷ "bnd" ∷ "notrack" ∷ "cs" ∷ "ds" ∷ "es" ∷ "fs" ∷ "gs" ∷ "ss" ∷ [])
      w

abbrev named_registers : List String
named_registers =
    "eax" ∷ "ebx" ∷ "ecx" ∷ "edx" ∷ "esi" ∷ "edi" ∷ "ebp" ∷ "esp" ∷ "eip" ∷ "cs" ∷ "ds" ∷ "ss"
    ∷ "es" ∷ "fs" ∷ "gs" ∷ "ax" ∷ "bx" ∷ "cx" ∷ "dx" ∷ "si" ∷ "di" ∷ "bp" ∷ "sp" ∷ "al" ∷ "bl"
    ∷ "cl" ∷ "dl" ∷ "ah" ∷ "bh" ∷ "ch" ∷ "dh" ∷ "spl" ∷ "bpl" ∷ "sil" ∷ "dil" ∷ "rax" ∷ "rbx"
    ∷ "rcx" ∷ "rdx" ∷ "rsi" ∷ "rdi" ∷ "rbp" ∷ "rsp" ∷ "rip" ∷ "st" ∷ []

-- Every text of the first list before every one of the second
unfoldable pub products : List Text → List Text → List Text
products [] ys = []
products (x ∷ xs) ys = map (λ y. x ++ y) ys ++ products xs ys

abbrev two_digit : List Text
two_digit = codes "10" ∷ codes "11" ∷ codes "12" ∷ codes "13" ∷ codes "14" ∷ codes "15" ∷ []

abbrev one_digit : List Text
one_digit =
    codes "0"
    ∷ codes "1"
    ∷ codes "2"
    ∷ codes "3"
    ∷ codes "4"
    ∷ codes "5"
    ∷ codes "6"
    ∷ codes "7"
    ∷ codes "8"
    ∷ codes "9"
    ∷ []

-- The words that the regular expression `numbered` matches: r(8|9|1[0-5])[dwb]? and
-- [xy]?mm([0-9]|1[0-5])
unfoldable pub numbered : List Text
unfolding products
numbered =
    products (codes "r" ∷ [])
      (products (codes "8" ∷ codes "9" ∷ two_digit) ([] ∷ codes "d" ∷ codes "w" ∷ codes "b" ∷ []))
    ++ products (codes "mm" ∷ codes "xmm" ∷ codes "ymm" ∷ []) (one_digit ++ two_digit)

unfoldable pub is_register : Text → Bool
unfolding one_of member numbered
is_register w = one_of named_registers w || member numbered w

-- The tests of <cctype> in the C locale
unfoldable pub is_digit : ℕ → Bool
is_digit c = leb b'0' c && leb c b'9'

unfoldable pub is_word_char : ℕ → Bool
unfolding is_digit
is_word_char c =
    is_digit c || leb b'A' c && leb c b'Z' || leb b'a' c && leb c b'z' || (c == b'_') || (c == b'.')

unfoldable pub lower : Text → Text
lower [] = []
lower (c ∷ text) = (if leb b'A' c && leb c b'Z' then c + 32 else c) ∷ lower text

unfoldable pub starts_with : Text → Text → Bool
starts_with [] text = true
starts_with (c ∷ start) [] = false
starts_with (c ∷ start) (d ∷ text) = c == d && starts_with start text

unfoldable pub all_digits : Text → Bool
unfolding is_digit
all_digits [] = true
all_digits (c ∷ text) = is_digit c && all_digits text

unfoldable pub is_immediate : Text → Bool
unfolding starts_with all_digits
is_immediate [] = false
is_immediate (c ∷ w) =
    starts_with (codes "0x") (c ∷ w)
    || starts_with (codes "-0x") (c ∷ w)
    || (if c == b'-' then not (bytes_eq w []) && all_digits w else all_digits (c ∷ w))

-- The lambda negHex
unfoldable pub neg_hex : Text → Bool
neg_hex (c ∷ d ∷ text) = c == b'-' && d == b'0'
neg_hex _ = false

-- The loop over a word: what it takes, and the rest
unfoldable pub word_of : Text → Text
unfolding is_word_char
word_of [] = []
word_of (c ∷ text) = let rest = word_of text in if is_word_char c then c ∷ rest else []

unfoldable pub after_word : Text → Text
unfolding is_word_char
after_word [] = []
after_word (c ∷ text) = let rest = after_word text in if is_word_char c then rest else c ∷ text

-- A word, with the minus sign that may stand before it
unfoldable pub signed_word : Text → Text
unfolding word_of
signed_word [] = []
signed_word (c ∷ text) = if c == b'-' then c ∷ word_of text else word_of (c ∷ text)

unfoldable pub after_signed : Text → Text
unfolding after_word
after_signed [] = []
after_signed (c ∷ text) = if c == b'-' then after_word text else after_word (c ∷ text)

unfoldable pub starts_word : Text → Bool
unfolding is_word_char neg_hex
starts_word [] = false
starts_word (c ∷ text) = is_word_char c || neg_hex (c ∷ text)

-- The loop over what is neither a word nor a comment
unfoldable pub punct_of : Text → Text
unfolding starts_word
punct_of [] = []
punct_of (c ∷ text) =
    let rest = punct_of text in if starts_word (c ∷ text) || c == b';' then [] else c ∷ rest

unfoldable pub after_punct : Text → Text
unfolding starts_word
after_punct [] = []
after_punct (c ∷ text) =
    let rest = after_punct text in if starts_word (c ∷ text) || c == b';' then c ∷ text else rest

-- The role of a word, and whether the mnemonic has been seen with it
unfoldable pub role_of : Bool → Bool → Text → Role
unfolding is_register is_immediate one_of
role_of branch seen w =
    if not seen
    then (if branch then syn_jump else syn_mnemonic)
    else if is_register w
    then syn_register
    else if is_immediate w
    then (if branch then syn_target else syn_immediate)
    else if one_of ("dword" ∷ "word" ∷ "qword" ∷ "byte" ∷ "ptr" ∷ []) w
    then muted
    else syn_text

unfoldable pub seen_with : Bool → Text → Bool
unfolding is_prefix_word
seen_with seen w = if not seen then not (is_prefix_word w) else true

-- A token takes at least one character, so that the text's length bounds the rounds.
unfoldable pub tokenize_from : ℕ → Bool → Bool → Text → List Token
unfolding starts_word signed_word after_signed punct_of after_punct role_of seen_with lower
tokenize_from zero branch seen text = []
tokenize_from (suc rounds) branch seen [] = []
tokenize_from (suc rounds) branch seen (c ∷ text) =
    let all = c ∷ text in
    let word = signed_word all in
    let after = tokenize_from rounds branch (seen_with seen (lower word)) (after_signed all) in
    let past = tokenize_from rounds branch seen (after_punct all) in
    if c == b';'
    then record { text = all; role = syn_punct } ∷ []
    else if starts_word all
    then record { text = word; role = role_of branch seen (lower word) } ∷ after
    else record { text = punct_of all; role = syn_punct } ∷ past

unfoldable pub tokenize : Text → Bool → List Token
unfolding tokenize_from
tokenize text branch = tokenize_from (length text) branch false text
