-- ===== src/Arbiter/Fingerprint.antt =====
-- `ApprovalFingerprint::from_parts` of crates/niuma-core/src/approval_arbitration.rs: the key under
-- which the hook and the watcher meet, a 64-bit FNV-1a hash of the normalized texts.
use Prim.Native.Char.{Char, code}
use Prim.Native.Nat.{bit_xor}
use niu_ma_notifier.Prelude.Text.{is_whitespace, is_blank, trim, format, digit}
use niu_ma_notifier.Prelude.{
  ℕ, zero, suc, ◌+◌, ◌*◌, ◌/◌, ◌%◌, ◌^◌, String, Bool, true, false, ◌≡◌, refl, Option, none, some,
  List, [], ◌∷◌, leb, ltb, if◌then◌else◌, nat_eq, string_eq, ◌==◌,
}
use niu_ma_notifier.Arbiter.{ApprovalFingerprint, ApprovalFingerprintBasis}

-- `split_whitespace`, one character before the words of the rest.
unfoldable pub push_char : Char → String → List String → List String
push_char c String.[] words = String.◌∷◌ c String.[] ∷ words
push_char c (String.◌∷◌ d rest) words =
    if is_whitespace (code d)
    then String.◌∷◌ c String.[] ∷ words
    else elim words [ [] ↦ String.◌∷◌ c String.[] ∷ [] | word ∷ more ↦ String.◌∷◌ c word ∷ more ]

unfoldable pub split_whitespace : String → List String
split_whitespace String.[] = []
split_whitespace (String.◌∷◌ c s) =
    let words = split_whitespace s in if is_whitespace (code c) then words else push_char c s words

-- `join(" ")`.
unfoldable pub join_words : List String → String
join_words [] = ""
join_words (word ∷ []) = word
join_words (word ∷ next ∷ words) = format (word ∷ " " ∷ join_words (next ∷ words) ∷ [])

abbrev pub is_empty_text : String → Bool
is_empty_text String.[] = true
is_empty_text (String.◌∷◌ c s) = false

unfoldable pub normalize_fingerprint_text : Option String → Option String
normalize_fingerprint_text none = none
normalize_fingerprint_text (some value) =
    let normalized = join_words (split_whitespace value) in
    if is_empty_text normalized then none else some normalized

-- The bytes of a character in UTF-8.
unfoldable pub utf8 : ℕ → List ℕ
utf8 c =
    if ltb c 0x80
    then c ∷ []
    else if ltb c 0x800
    then (0xc0 + c / 64) ∷ (0x80 + c % 64) ∷ []
    else if ltb c 0x10000
    then (0xe0 + c / 4096) ∷ (0x80 + c / 64 % 64) ∷ (0x80 + c % 64) ∷ []
    else (0xf0 + c / 262144) ∷ (0x80 + c / 4096 % 64) ∷ (0x80 + c / 64 % 64) ∷ (0x80 + c % 64) ∷ []

-- The loop over the bytes, in 64 bits.
unfoldable pub hash_bytes : ℕ → List ℕ → ℕ
hash_bytes hash [] = hash
hash_bytes hash (byte ∷ bytes) = hash_bytes ((bit_xor hash byte * 1_099_511_628_211) % 2 ^ 64) bytes

unfoldable pub hash_text : ℕ → String → ℕ
hash_text hash String.[] = hash
hash_text hash (String.◌∷◌ c s) = hash_text (hash_bytes hash (utf8 (code c))) s

unfoldable pub hex_digit : ℕ → String
hex_digit n =
    if n == 10
    then "a"
    else if n == 11
    then "b"
    else if n == 12
    then "c"
    else if n == 13
    then "d"
    else if n == 14
    then "e"
    else if n == 15
    then "f"
    else digit n

-- The hexadecimal digits of a number before `acc`. A 64-bit number has 16 at most.
unfoldable pub hex_digits : ℕ → ℕ → String → String
hex_digits zero n acc = acc
hex_digits (suc fuel) n acc =
    let text = format (hex_digit (n % 16) ∷ acc ∷ []) in
    let rest = hex_digits fuel (n / 16) text in if leb n 15 then text else rest

unfoldable pub stable_hash : String → String
stable_hash text = hex_digits 16 (hash_text 14_695_981_039_346_656_037 text) ""

abbrev pub basis_name : ApprovalFingerprintBasis → String
basis_name ApprovalFingerprintBasis.command = "command"
basis_name ApprovalFingerprintBasis.description = "description"

-- The session id that counts: trimmed, and none that is blank.
unfoldable pub trim_session : Option String → Option String
trim_session none = none
trim_session (some value) = if is_blank value then none else some (trim value)

abbrev pub or_empty : Option String → String
or_empty none = ""
or_empty (some value) = value

-- The end of `from_parts`, on the text that counts.
unfoldable pub fingerprint_of :
    String → Option String → ApprovalFingerprintBasis → String → ApprovalFingerprint
fingerprint_of project_path session_id basis text = record {
  key = format (
      "codex-approval:"
      ∷ stable_hash (trim project_path)
      ∷ ":"
      ∷ stable_hash (or_empty (trim_session session_id))
      ∷ ":"
      ∷ basis_name basis
      ∷ ":"
      ∷ stable_hash text
      ∷ []);
  project_path = trim project_path;
  session_id = trim_session session_id;
  basis = basis;
}

unfoldable pub from_parts :
    String → Option String → Option String → Option String → Option ApprovalFingerprint
from_parts project_path session_id command description = elim (normalize_fingerprint_text command) [
  | some text ↦ some (fingerprint_of project_path session_id ApprovalFingerprintBasis.command text)
  | none ↦ elim (normalize_fingerprint_text description) [
    | some text ↦
        some (fingerprint_of project_path session_id ApprovalFingerprintBasis.description text)
    | none ↦ none
  ]
]

hash_example : stable_hash "a" ≡ "af63dc4c8601ec8c"
unfolding stable_hash hash_text hash_bytes utf8 hex_digits hex_digit digit format
hash_example = refl

words_example : join_words (split_whitespace "  git   push  x ") ≡ "git push x"
unfolding join_words split_whitespace push_char is_whitespace format
words_example = refl
