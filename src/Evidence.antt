-- ===== src/Evidence.antt =====
-- core/crates/evidence/src/writer.rs: the evidence files of one task, `events.jsonl` as bytes.
-- Everything the writer keeps is keyed by the task id, so the model is one task's part of it.
-- `write_lock` makes `append` and `finalize` atomic. serde_json, sha2 and the UTF-8 test are
-- parameters. A `write_all` may be cut short (a crash, a full disk): `room` says after how many
-- bytes, if at all.
pub mod Bytes
pub mod Healing
pub mod Crash
use aite.Base.{
  ltb, eqb, if◌then◌else◌, take, get_last?, length, text_len, render, decimal, ℕ, suc, ◌+◌, ◌*◌,
  String, Bool, true, false, ◌&&◌, Option, none, some, List, [], ◌∷◌, ◌++◌, ◌==◌,
}
use aite.Base.Exec.{Exec, Result, after, err, ok}
use aite.Contracts.Evidence.{
  EvidenceEvent, EvidenceKind, Members, canonical_json, chain_hash, genesis, payload_hash_of,
}
use aite.Evidence.Bytes.{cut, filled, is_blank, is_empty, lines_of, split_lines}

pub record Codec : Type 0 where
  pub parse_event : List ℕ → Option EvidenceEvent
  pub print_event : EvidenceEvent → List ℕ
  pub parse_object : String → Option Members
  pub is_utf8 : List ℕ → Bool
  pub sha256_hex : String → String

pub record Manifest : Type 0 where
  pub task_id : String
  pub session_id : String
  pub task_no : String
  pub created_by : String
  pub model : String
  pub contract_version : String
  pub root_hash : String
  pub event_count : ℕ

-- The task's directory, and the writer's own state: the cached tip and the two counters.
pub record Chain : Type 0 where
  pub events : Option (List ℕ)
  pub payloads : List (String × String)
  pub manifest : Option Manifest
  pub tip : Option (ℕ × String)
  pub torn_tail_kept : ℕ
  pub torn_tail_dropped : ℕ

-- `Serde` is left out: printing a record does not fail.
pub data EvidenceError : Type 0 where
  io : EvidenceError
  corrupt : String → EvidenceError

abbrev pub contract_version : String
contract_version = "p0.2"

-- `INLINE_PAYLOAD_MAX_BYTES`
abbrev pub inline_payload_max_bytes : ℕ
inline_payload_max_bytes = 64 * 1024

-- `payloads/{seq}.json`
abbrev pub payload_path : ℕ → String
payload_path seq = render ("payloads/" ∷ decimal seq ∷ ".json" ∷ [])

abbrev pub file_at : String → List (String × String) → Option String
file_at path [] = none
file_at path ((p, text) ∷ files) = if p == path then some text else file_at path files

abbrev pub contents : Option (List ℕ) → List ℕ
contents none = []
contents (some bytes) = bytes

module _ (c : Codec) (task_id : String) where
  abbrev pub prev_hash_of : Option (List ℕ) → Option String
  prev_hash_of none = some genesis
  prev_hash_of (some line) = elim (c.parse_event line) [ none ↦ none | some ev ↦ some ev.hash ]

  -- The event is the one that follows the whole records before it.
  unfoldable pub follows : EvidenceEvent → ℕ → Option String → Bool
  unfolding chain_hash
  follows ev count none = false
  follows ev count (some prev) =
      (ev.task_id == task_id)
      && (eqb ev.seq count
          && ((ev.prev_hash == prev) && (ev.hash == chain_hash c.sha256_hex prev ev.payload_hash)))

  unfoldable pub tail_is_a_whole_record : List ℕ → List ℕ → Bool
  unfolding follows
  tail_is_a_whole_record head tail =
      let lines = filled (split_lines head) in
      elim (c.parse_event tail) [
        | none ↦ false
        | some ev ↦ follows ev (length lines) (prev_hash_of (get_last? lines))
      ]

  -- `heal_torn_tail` on the bytes: what is left of the file, and whether a tail was kept (`true`)
  -- or dropped.
  unfoldable pub healed : List ℕ → List ℕ × Option Bool
  unfolding tail_is_a_whole_record
  healed bytes =
      let (head, tail) = cut bytes in
      if is_empty tail
      then (bytes, none)
      else if tail_is_a_whole_record head tail
      then (bytes ++ 10 ∷ [], some true)
      else (head, some false)

  abbrev settle : Chain → List ℕ × Option Bool → Chain
  settle s (bytes, none) = s
  settle s (bytes, some true) = record s {
    events = some bytes;
    tip = none;
    torn_tail_kept = s.torn_tail_kept + 1;
  }
  settle s (bytes, some false) = record s {
    events = some bytes;
    tip = none;
    torn_tail_dropped = s.torn_tail_dropped + 1;
  }

  abbrev heal_file : Chain → Option (List ℕ) → Chain
  heal_file s none = s
  heal_file s (some bytes) = settle s (healed bytes)

  unfoldable pub heal_torn_tail : Chain → Chain
  unfolding healed
  heal_torn_tail s = heal_file s s.events

  -- `read_events` on the lines; a line that cannot be parsed is an error.
  unfoldable pub read_lines : List (List ℕ) → Result EvidenceError (List EvidenceEvent)
  read_lines [] = ok []
  read_lines (line ∷ lines) = elim (c.parse_event line) [
    | none ↦ err (corrupt task_id)
    | some ev ↦ elim (read_lines lines) [ ok evs ↦ ok (ev ∷ evs) | err e ↦ err e ]
  ]

  unfoldable pub read_events : Chain → Result EvidenceError (List EvidenceEvent)
  unfolding read_lines
  read_events s = read_lines (filled (split_lines (contents s.events)))

  abbrev pub tip_of : Option EvidenceEvent → ℕ × String
  tip_of none = (0, genesis)
  tip_of (some last) = (last.seq + 1, last.hash)

  abbrev tip_from : Option (ℕ × String) → Exec Chain EvidenceError (ℕ × String)
  tip_from (some tip) s = (ok tip, s)
  tip_from none s = elim (read_events s) [
    | ok events ↦
        (ok (tip_of (get_last? events)), record s { tip = some (tip_of (get_last? events)) })
    | err e ↦ (err e, s)
  ]

  unfoldable pub chain_tip : Exec Chain EvidenceError (ℕ × String)
  unfolding read_events
  chain_tip s = tip_from s.tip s

  -- A payload above the limit is written to `payloads/{seq}.json`.
  abbrev is_large : Members → Bool
  is_large payload = ltb inline_payload_max_bytes (text_len (canonical_json payload))

  unfoldable pub event_of : EvidenceKind → Members → ℕ → ℕ × String → EvidenceEvent
  unfolding chain_hash payload_hash_of
  event_of kind payload now (seq, prev) = record {
    task_id = task_id;
    seq = seq;
    kind = kind;
    payload_hash = payload_hash_of c.sha256_hex payload;
    payload_ref = if is_large payload then some (payload_path seq) else none;
    payload = if is_large payload then none else some payload;
    prev_hash = prev;
    hash = chain_hash c.sha256_hex prev (payload_hash_of c.sha256_hex payload);
    created_at = now;
  }

  store_payload : Members → ℕ → Chain → Chain
  store_payload payload seq s =
      if is_large payload
      then record s { payloads = (payload_path seq, canonical_json payload) ∷ s.payloads }
      else s

  -- The line goes to the end of the file in one write. Cut short, it is an error, and the cached
  -- tip stays as it was.
  abbrev write_line : EvidenceEvent → Option ℕ → Exec Chain EvidenceError EvidenceEvent
  write_line ev none s = (
    ok ev,
    record s {
      events = some (contents s.events ++ (c.print_event ev ++ 10 ∷ []));
      tip = some (ev.seq + 1, ev.hash);
    },
  )
  write_line ev (some room) s = (
    err io,
    record s { events = some (contents s.events ++ take room (c.print_event ev ++ 10 ∷ [])) },
  )

  -- `append_sync`
  unfoldable pub append :
      EvidenceKind → Members → ℕ → Option ℕ → Exec Chain EvidenceError EvidenceEvent
  unfolding heal_torn_tail chain_tip event_of store_payload
  append kind payload now room s =
      after (chain_tip (heal_torn_tail s))
        (λ tip t. write_line (event_of kind payload now tip) room (store_payload payload tip.0 t))

  abbrev pub root_of : Option EvidenceEvent → String
  root_of none = genesis
  root_of (some last) = last.hash

  -- `finalize_sync`: the descriptive fields are those of `manifest_extra`, "" where one is missing.
  unfoldable pub finalize : Manifest → Exec Chain EvidenceError String
  unfolding heal_torn_tail read_events
  finalize extra s =
      let healed_chain = heal_torn_tail s in
      elim (read_events healed_chain) [
        | err e ↦ (err e, healed_chain)
        | ok events ↦ (
          ok (root_of (get_last? events)),
          record healed_chain {
            manifest = some (record extra {
              task_id = task_id;
              contract_version = contract_version;
              root_hash = root_of (get_last? events);
              event_count = length events;
            });
          },
        )
      ]

  abbrev read_object : Option String → Option Members
  read_object none = none
  read_object (some text) = c.parse_object text

  abbrev payload_at : Option String → Chain → Option Members
  payload_at none s = none
  payload_at (some path) s = read_object (file_at path s.payloads)

  unfoldable pub resolve_payload : Chain → EvidenceEvent → Option Members
  resolve_payload s ev = elim ev.payload [ some p ↦ some p | none ↦ payload_at ev.payload_ref s ]

  -- The payload is there and its hash is the event's.
  unfoldable pub payload_matches : Chain → EvidenceEvent → Bool
  unfolding resolve_payload payload_hash_of
  payload_matches s ev = elim (resolve_payload s ev) [
    | none ↦ false
    | some p ↦ payload_hash_of c.sha256_hex p == ev.payload_hash
  ]

  -- The loop of `verify_sync` at line `i`, behind the hash `prev`.
  unfoldable pub verify_lines : Chain → ℕ → String → List (List ℕ) → Bool
  unfolding payload_matches chain_hash
  verify_lines s i prev [] = true
  verify_lines s i prev (line ∷ lines) = elim (is_blank line) [
    | true ↦ verify_lines s (suc i) prev lines
    | false ↦ elim (c.parse_event line) [
      | none ↦ false
      | some ev ↦
          (ev.task_id == task_id)
          && (eqb ev.seq i
              && (payload_matches s ev
                  && ((ev.prev_hash == prev)
                      && ((ev.hash == chain_hash c.sha256_hex prev ev.payload_hash)
                          && verify_lines s (suc i) ev.hash lines))))
    ]
  ]

  verify_file : Chain → Option (List ℕ) → Bool
  unfolding verify_lines
  verify_file s none = false
  verify_file s (some bytes) = c.is_utf8 bytes && verify_lines s 0 genesis (lines_of bytes)

  -- `verify_sync` only reads.
  unfoldable pub verify : Chain → Bool
  unfolding verify_file
  verify s = verify_file s s.events
