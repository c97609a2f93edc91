-- ===== src/Worker/Redact.antt =====
-- core/crates/worker/src/redact.rs: what is masked before evidence is written. The table of
-- `char::is_alphanumeric` is a parameter; the lower case is that of the letters A to Z, which keeps
-- the length, so that the test of the lengths in `mask_bearer` is left out.
use Prim.Native.Char.{Char, code}
use aite.Base.{
  ltb, leb, eqb, if◌then◌else◌, contains, render, char_count, take_chars, ℕ, zero, suc, ◌+◌, ◌-◌,
  String, ◌≡◌, refl, Bool, true, false, not, ◌&&◌, ◌||◌, Option, none, some, List, [], ◌∷◌,
}
use aite.Contracts.Evidence.{Elements, Members, Value}
use aite.Control.Queue.{len}
use aite.Control.Words.{is_whitespace, lower_char, map_chars}
use aite.Worker.Scan.{drop_chars, head_char, starts_with, take_while}

abbrev pub secret_keys : List String
secret_keys =
    "api_key" ∷ "apikey" ∷ "token" ∷ "access_token" ∷ "password" ∷ "passwd" ∷ "secret"
    ∷ "app_secret" ∷ "client_secret" ∷ "authorization" ∷ []

abbrev pub mask : String
mask = "***"

unfoldable pub is_secret_key : String → Bool
unfolding lower_char
is_secret_key key = contains secret_keys (map_chars lower_char key)

abbrev is_ascii_alphanumeric : Char → Bool
is_ascii_alphanumeric c =
    let n = code c in (leb 48 n && leb n 57) || ((leb 65 n && leb n 90) || (leb 97 n && leb n 122))

-- The characters of a key behind `sk-`, and of the word behind `Bearer`.
abbrev is_key_char : Char → Bool
is_key_char c = is_ascii_alphanumeric c || (eqb (code c) 45 || eqb (code c) 95)

abbrev is_bearer_char : Char → Bool
is_bearer_char c = not (is_whitespace c || (eqb (code c) 34 || eqb (code c) 39))

abbrev is_value_char : Char → Bool
is_value_char c =
    let n = code c in
    not (
      is_whitespace c
      || (eqb n 34
          || (eqb n 39
              || (eqb n 44 || (eqb n 38 || (eqb n 59 || (eqb n 125 || (eqb n 41 || eqb n 93))))))))

-- How many more characters of a text to step over, and what to write for all of them.
record Bite : Type 0 where
  more : ℕ
  written : String

abbrev spaces : String → String
spaces s = take_while (λ c. eqb (code c) 32) s

abbrev quotes : String → ℕ
quotes s = elim (head_char s) [
  | none ↦ 0
  | some c ↦ if eqb (code c) 34 || eqb (code c) 39 then 1 else 0
]

abbrev is_separator : String → Bool
is_separator s = elim (head_char s) [
  | none ↦ false
  | some c ↦ eqb (code c) 61 || (eqb (code c) 58 || eqb (code c) 65306)
]

-- `value_span` of the text behind a key: where the value starts and how long it is.
unfoldable pub value_span : String → Option (ℕ × ℕ)
unfolding is_whitespace
value_span s =
    let a = quotes s in
    let b = a + char_count (spaces (drop_chars a s)) in
    let c = b + 1 + char_count (spaces (drop_chars (b + 1) s)) in
    let start = c + quotes (drop_chars c s) in
    let n = char_count (take_while is_value_char (drop_chars start s)) in
    if is_separator (drop_chars b s) && ltb 0 n then some (start, n) else none

module _ (is_alphanumeric : Char → Bool) where
  abbrev is_word : Char → Bool
  is_word c = is_alphanumeric c || eqb (code c) 95

  -- Not behind a letter of a word.
  abbrev is_boundary : Option Char → Bool
  is_boundary none = true
  is_boundary (some c) = not (is_word c)

  -- The scan of a text: at each place `f` says what to write for how many characters, the
  -- character in front of it being given; `skip` characters are still to be stepped over.
  abbrev scan : (Option Char → Char → String → Bite) → ℕ → Option Char → String → String
  scan f skip prev String.[] = ""
  scan f (suc skip) prev (String.◌∷◌ c s) = scan f skip (some c) s
  scan f zero prev (String.◌∷◌ c s) =
      let bite = f prev c s in
      let rest = scan f bite.more (some c) s in render (bite.written ∷ rest ∷ [])

  abbrev copied : Char → Bite
  copied c = record { more = 0; written = String.◌∷◌ c "" }

  -- A prefix of `n` characters, written as `prefix`, and the token behind it.
  abbrev mask_token : (Char → Bool) → ℕ → String → Bool → String → Bite
  mask_token is_token n prefix boundary s =
      let len = char_count (take_while is_token (drop_chars n s)) in
      if boundary && ltb 0 len
      then record { more = n + len - 1; written = render (prefix ∷ mask ∷ []) }
      else record { more = n - 1; written = prefix }

  abbrev sk_step : Option Char → Char → String → Bite
  sk_step prev c s =
      if starts_with "sk-" (String.◌∷◌ c s)
      then mask_token is_key_char 3 "sk-" (is_boundary prev) (String.◌∷◌ c s)
      else copied c

  -- `mask_after_prefix(text, "sk-", ..)`; behind a masked token the scan cannot be at `sk-`, so that
  -- the star in front of it plays no part.
  unfoldable pub mask_after_prefix : String → String
  unfolding starts_with
  mask_after_prefix text = scan sk_step 0 none text

  abbrev bearer_step : Option Char → Char → String → Bite
  bearer_step prev c s =
      let word = take_chars 7 (String.◌∷◌ c s) in
      if starts_with "bearer " (map_chars lower_char word)
      then mask_token is_bearer_char 7 word (is_boundary prev) (String.◌∷◌ c s)
      else copied c

  unfoldable pub mask_bearer : String → String
  unfolding starts_with lower_char is_whitespace
  mask_bearer text = scan bearer_step 0 none text

  abbrev key_value_written : String → ℕ → Option (ℕ × ℕ) → Bite
  key_value_written s n none = record { more = n - 1; written = take_chars n s }
  key_value_written s n (some (start, len)) = record {
    more = n + start + len - 1;
    written = render (take_chars (n + start) s ∷ mask ∷ []);
  }

  abbrev word_step : String → Bite
  word_step s =
      let word = take_while is_word s in
      let n = char_count word in
      key_value_written s n (if is_secret_key word then value_span (drop_chars n s) else none)

  abbrev key_value_step : Option Char → Char → String → Bite
  key_value_step prev c s =
      if is_word c && is_boundary prev then word_step (String.◌∷◌ c s) else copied c

  unfoldable pub mask_key_values : String → String
  unfolding is_secret_key value_span
  mask_key_values text = scan key_value_step 0 none text

  unfoldable pub redact_text : String → String
  unfolding mask_after_prefix mask_bearer mask_key_values render
  redact_text text = mask_key_values (mask_bearer (mask_after_prefix text))

  abbrev pub value_or_mask : Bool → Value → Value
  value_or_mask secret v = if secret then Value.text mask else v

  unfoldable mutual
    pub redact_value : Value → Value
    redact_value Value.null = Value.null
    redact_value (Value.bool b) = Value.bool b
    redact_value (Value.number n) = Value.number n
    redact_value (Value.text s) = Value.text (redact_text s)
    redact_value (Value.array items) = Value.array (redact_items items)
    redact_value (Value.object args) = Value.object (redact_args args)

    pub redact_items : Elements → Elements
    redact_items Elements.no_elements = Elements.no_elements
    redact_items (Elements.element v items) = Elements.element (redact_value v) (redact_items items)

    pub redact_args : Members → Members
    redact_args Members.no_members = Members.no_members
    redact_args (Members.member k v args) =
        Members.member k (value_or_mask (is_secret_key k) (redact_value v)) (redact_args args)

abbrev pub is_latin : Char → Bool
is_latin c = is_ascii_alphanumeric c

-- The test of redact.rs.
redact_key : redact_text is_latin "key sk-live-ABC_123 done" ≡ "key sk-*** done"
unfolding redact_text
redact_key = refl

redact_task : redact_text is_latin "task-123" ≡ "task-123"
unfolding redact_text
redact_task = refl

redact_header : redact_text is_latin "Authorization: Bearer abc.def" ≡ "Authorization: *** ***"
unfolding redact_text
redact_header = refl

redact_word : redact_text is_latin "curl -H 'bearer xyz'" ≡ "curl -H 'bearer ***'"
unfolding redact_text
redact_word = refl

redact_query : redact_text is_latin "password=hunter2&x=1" ≡ "password=***&x=1"
unfolding redact_text
redact_query = refl

redact_json : redact_text is_latin "{\"token\": \"t0k\"}" ≡ "{\"token\": \"***\"}"
unfolding redact_text
redact_json = refl
