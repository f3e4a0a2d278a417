-- ===== src/Events/Stream/Torn.antt =====
-- What the server reads of a file that `quire-ci` wrote, whole or up to a write that broke off.
use quire.Prelude.{
  ℕ, zero, suc, ◌≤◌, ◌<◌, ◌≡◌, ◌∙◌, refl, sym, ap, Bool, false, not, Option, none, some, List, [],
  ◌∷◌, ◌++◌, select, map, length, eqb, ltb, arith, All, append_assoc, append-nil, if◌then◌else◌,
  if_true, if_false, or_false, eqb_iff, Bool-cases, inl, inr,
}
use quire.Prelude.Bytes.{Bytes, contains}
use quire.Repo.{split, is_empty, push_byte}
use quire.Runtime.{take_bytes}
use quire.Events.{Event}
use quire.Events.Ingest.{EventsFile, unparsable, events}
use quire.Events.Stream.{
  Write, whole, breaks, EventSink, null_sink, jsonl_sink, emit, emit_all, collect, holding,
  parse_events, or_unparsable, read_events,
}

-- What serde promises of an event: its text has no newline, is not empty, is read back, and no
-- shorter beginning of it is an event.
pub record IsWire (to_json : Event → Bytes) (from_json : Bytes → Option Event) (e : Event)
    : Type 0 where
  pub one_line : contains 10 (to_json e) ≡ false
  pub some_text : is_empty (to_json e) ≡ false
  pub read_back : from_json (to_json e) ≡ some e
  pub no_prefix : (k : ℕ) → k < length (to_json e) → from_json (take_bytes k (to_json e)) ≡ none

split-line : (l s : Bytes) → contains 10 l ≡ false → split 10 (l ++ 10 ∷ s) ≡ l ∷ split 10 s
unfolding split
split-line [] s h = refl
split-line (c ∷ l) s h =
    let (other, rest) = or_false (eqb c 10) (contains 10 l) h in
    if_false _ _ _ other ∙ ap (push_byte c) (split-line l s rest)

split-last : (l : Bytes) → contains 10 l ≡ false → split 10 l ≡ l ∷ []
unfolding split
split-last [] h = refl
split-last (c ∷ l) h =
    let (other, rest) = or_false (eqb c 10) (contains 10 l) h in
    if_false _ _ _ other ∙ ap (push_byte c) (split-last l rest)

contains-take_bytes :
    (k : ℕ) (l : Bytes) → contains 10 l ≡ false → contains 10 (take_bytes k l) ≡ false
contains-take_bytes zero l h = refl
contains-take_bytes (suc k) [] h = refl
contains-take_bytes (suc k) (c ∷ l) h =
    ground (arith, or_false (eqb c 10) (contains 10 l) h, contains-take_bytes k l)

take_bytes-short : (k : ℕ) (l s : Bytes) → k ≤ length l → take_bytes k (l ++ s) ≡ take_bytes k l
take_bytes-short zero l s h = refl
take_bytes-short (suc k) [] s h = absurd (omega (arith, h))
take_bytes-short (suc k) (c ∷ l) s h =
    ap (λ (x : Bytes). c ∷ x) (take_bytes-short k l s (omega (arith, h)))

take_bytes-all : (l : Bytes) → take_bytes (length l) l ≡ l
take_bytes-all [] = refl
take_bytes-all (c ∷ l) = ap (λ (x : Bytes). c ∷ x) (take_bytes-all l)

some_bytes : (k : ℕ) (l : Bytes) → 0 < k → k < length l → is_empty (take_bytes k l) ≡ false
unfolding is_empty
some_bytes zero l lo hi = absurd (omega (arith, lo))
some_bytes (suc k) [] lo hi = absurd (omega (arith, hi))
some_bytes (suc k) (c ∷ l) lo hi = refl

take_bytes-long :
    (k : ℕ) (l : Bytes) (c : ℕ) → length l < k → take_bytes k (l ++ c ∷ []) ≡ l ++ c ∷ []
take_bytes-long zero l c h = absurd (omega (arith, h))
take_bytes-long (suc zero) [] c h = refl
take_bytes-long (suc (suc k)) [] c h = refl
take_bytes-long (suc k) (d ∷ l) c h =
    ap (λ (x : Bytes). d ∷ x) (take_bytes-long k l c (omega (arith, h)))

-- The text that the sink's writer holds.
abbrev pub held : EventSink → Bytes
held null_sink = []
held (jsonl_sink out) = out

abbrev pub all_whole : List Event → List (Write × Event)
all_whole es = map (λ e. (whole, e)) es

abbrev onto : List Event → Option (List Event) → Option (List Event)
onto [] r = r
onto (e ∷ es) r = collect (some e) (onto es r)

onto-some : (es fs : List Event) → onto es (some fs) ≡ some (es ++ fs)
onto-some [] fs = refl
onto-some (e ∷ es) fs = ap (collect (some e)) (onto-some es fs)

onto-none : (es : List Event) → onto es none ≡ none
onto-none [] = refl
onto-none (e ∷ es) = ap (collect (some e)) (onto-none es)

module _ (to_json : Event → Bytes) where
  abbrev lines_of : List Event → Bytes
  lines_of [] = []
  lines_of (e ∷ es) = to_json e ++ 10 ∷ lines_of es

  emit_all-whole :
      (es : List Event) (rest : List (Write × Event)) (out : Bytes)
      → emit_all to_json (all_whole es ++ rest) (jsonl_sink out)
        ≡ emit_all to_json rest (jsonl_sink (out ++ lines_of es))
  unfolding emit_all emit
  emit_all-whole [] rest out =
      ap (λ (x : Bytes). emit_all to_json rest (jsonl_sink x)) (sym (append-nil out))
  emit_all-whole (e ∷ es) rest out =
      emit_all-whole es rest (out ++ to_json e ++ 10 ∷ [])
      ∙ ap (λ (x : Bytes). emit_all to_json rest (jsonl_sink x))
          (append_assoc (out ++ to_json e) _ _ ∙ append_assoc out _ _)

  module _ (from_json : Bytes → Option Event) where
    abbrev parsed : Bytes → Option (List Event)
    parsed s = parse_events from_json (select (λ line. not (is_empty line)) (split 10 s))

    parsed-line :
        (e : Event) (s : Bytes)
        → IsWire to_json from_json e
        → parsed (to_json e ++ 10 ∷ s) ≡ collect (some e) (parsed s)
    unfolding parse_events
    parsed-line e s w = simp (split-line (to_json e) s w.one_line, w.some_text, w.read_back)

    parsed-lines :
        (es : List Event) (s : Bytes)
        → All (IsWire to_json from_json) es
        → parsed (lines_of es ++ s) ≡ onto es (parsed s)
    parsed-lines [] s h = refl
    parsed-lines (e ∷ es) s h =
        ap parsed (append_assoc (to_json e) _ s)
        ∙ parsed-line e (lines_of es ++ s) h.0
        ∙ ap (collect (some e)) (parsed-lines es s h.1)

    parsed-nil : parsed [] ≡ some []
    unfolding split is_empty parse_events
    parsed-nil = refl

    parsed-last :
        (l : Bytes)
        → contains 10 l ≡ false
        → is_empty l ≡ false
        → parsed l ≡ collect (from_json l) (some [])
    unfolding parse_events
    parsed-last l one some_text = simp (split-last l one, some_text)

    -- What a line that broke off reads as, behind whole ones.
    abbrev pub torn_result : List Event → Event → ℕ → EventsFile
    torn_result es e zero = events es
    torn_result es e (suc k) =
        if ltb (suc k) (length (to_json e)) then unparsable else events (es ++ e ∷ [])

    emit-breaks :
        (k : ℕ) (e : Event) (rest : List (Write × Event)) (out : Bytes)
        → emit_all to_json ((breaks k, e) ∷ rest) (jsonl_sink out)
          ≡ (false, jsonl_sink (out ++ take_bytes k (to_json e ++ 10 ∷ [])))
    unfolding emit_all emit
    emit-breaks k e rest out = refl

    parsed-torn :
        (k : ℕ) (e : Event)
        → IsWire to_json from_json e
        → 0 < k
        → k < length (to_json e)
        → parsed (take_bytes k (to_json e ++ 10 ∷ [])) ≡ none
    parsed-torn k e w lo hi =
        ap parsed (take_bytes-short k (to_json e) (10 ∷ []) (omega (arith, hi)))
        ∙ parsed-last (take_bytes k (to_json e)) (contains-take_bytes k (to_json e) w.one_line)
            (some_bytes k (to_json e) lo hi)
        ∙ ap (λ (x : Option Event). collect x (some [])) (w.no_prefix k hi)

    parsed-full :
        (k : ℕ) (e : Event)
        → IsWire to_json from_json e
        → length (to_json e) ≤ k
        → parsed (take_bytes k (to_json e ++ 10 ∷ [])) ≡ some (e ∷ [])
    parsed-full k e w lo = elim (Bool-cases (eqb k (length (to_json e)))) [
      | inl same ↦
          ap parsed (
            take_bytes-short k (to_json e) (10 ∷ [])
              (omega (arith, (eqb_iff k (length (to_json e))).0 same))
            ∙ ap (λ n. take_bytes n (to_json e)) ((eqb_iff k (length (to_json e))).0 same)
            ∙ take_bytes-all (to_json e))
          ∙ parsed-last (to_json e) w.one_line w.some_text
          ∙ ap (λ (x : Option Event). collect x (some [])) w.read_back
      | inr other ↦
          ap parsed (take_bytes-long k (to_json e) 10 (ground (arith, lo, other)))
          ∙ parsed-line e [] w
          ∙ ap (collect (some e)) parsed-nil
    ]

    read_written :
        (es : List Event) (s : Bytes) (r : Option (List Event))
        → All (IsWire to_json from_json) es
        → parsed s ≡ r
        → read_events from_json (holding (lines_of es ++ s)) ≡ or_unparsable (onto es r)
    unfolding read_events
    read_written es s r h p = ap or_unparsable (parsed-lines es s h ∙ ap (onto es) p)

    -- When serde reads back the text of each event, which is one line, a file to which every event
    -- was written whole is read as these events, in order.
    pub read_events-emit_all :
        (es : List Event)
        → All (IsWire to_json from_json) es
        → read_events from_json (holding (held (emit_all to_json (all_whole es) (jsonl_sink [])).1))
          ≡ events es
    unfolding emit_all
    read_events-emit_all es h =
        ap (λ (x : Bool × EventSink). read_events from_json (holding (held x.1)))
          (ap (λ (x : List (Write × Event)). emit_all to_json x (jsonl_sink []))
              (sym (append-nil (all_whole es)))
            ∙ emit_all-whole es [] [])
        ∙ ap (λ (x : Bytes). read_events from_json (holding x)) (sym (append-nil (lines_of es)))
        ∙ read_written es [] (some []) h parsed-nil
        ∙ ap or_unparsable (onto-some es [] ∙ ap some (append-nil es))

    read_torn :
        (es : List Event) (e : Event) (k : ℕ)
        → All (IsWire to_json from_json) es
        → IsWire to_json from_json e
        → read_events from_json (holding (lines_of es ++ take_bytes k (to_json e ++ 10 ∷ [])))
          ≡ torn_result es e k
    read_torn es e zero h w =
        read_written es [] (some []) h parsed-nil
        ∙ ap or_unparsable (onto-some es [] ∙ ap some (append-nil es))
    read_torn es e (suc k) h w = elim (Bool-cases (ltb (suc k) (length (to_json e)))) [
      | inl short ↦
          read_written es _ none h (parsed-torn (suc k) e w (omega arith) (ground (arith, short)))
          ∙ ap or_unparsable (onto-none es)
          ∙ sym (if_true _ _ _ short)
      | inr long ↦
          read_written es _ (some (e ∷ [])) h (parsed-full (suc k) e w (ground (arith, long)))
          ∙ ap or_unparsable (onto-some es (e ∷ []))
          ∙ sym (if_false _ _ _ long)
    ]

    -- When, behind whole events, the write of an event breaks off after some bytes, nothing more is
    -- written, whatever was to come. The file is read as the events before, if no byte of the broken
    -- line was written; as these and the broken one, if only its newline is missing or was not
    -- flushed; and otherwise no event of it is read at all.
    pub read_events-torn :
        (es : List Event) (e : Event) (k : ℕ) (rest : List (Write × Event))
        → All (IsWire to_json from_json) es
        → IsWire to_json from_json e
        → let (is_ok, sink) =
            emit_all to_json (all_whole es ++ (breaks k, e) ∷ rest) (jsonl_sink []) in
          (is_ok ≡ false) × (read_events from_json (holding (held sink)) ≡ torn_result es e k)
    read_events-torn es e k rest h w =
        let ran =
          emit_all-whole es ((breaks k, e) ∷ rest) [] ∙ emit-breaks k e rest (lines_of es) in
        (
          ap (λ (x : Bool × EventSink). x.0) ran,
          ap (λ (x : Bool × EventSink). read_events from_json (holding (held x.1))) ran
              ∙ read_torn es e k h w,
        )
