-- ===== src/Bcm/Offline/Laws.antt =====
-- Which errors loading recorded events can raise, and what classifying a batch does to each event.
use mcp_contract.Base.{
  ℕ, ◌+◌, ◌≡◌, ◌⊎◌, inl, inr, refl, ap, not, ◌&&◌, List, [], ◌∷◌, map, Option, none, some,
  if◌then◌else◌, is_empty, Bool-cases, Option-cases, is_some, Text, txt, text_eq, nat_eq, Value,
  null, obj, Fields, get_or, Result, ok, err, Exception, value_error, key_error, type_error,
  attribute_error, overflow_error, os_error, runtime_error, ◌>>=◌, Result-cases, Raises, Raises->>=,
  Builtins,
}
use mcp_contract.Models.{id_eq, status_eq, class_eq, Capability, Policy, EventKind, BehaviorEvent}
use mcp_contract.Models.Codec.{event_from_dict}
use mcp_contract.Bcm.Diff.{classify_event, event_capability, track_tool_ctx}
use mcp_contract.Models.Codec.Errors.{event_from_dict-Raises}
use mathlib.Core.Path.{ap₂}
use mcp_contract.Posix.{strip}
use mcp_contract.Bcm.Offline.{
  usable_kind, remap_unknown_kind, as_object, as_bad_event, load_line, load_from, load_events,
  load_events_jsonl, annotate,
}

classify_event-stamped :
    (py : Builtins) (e : BehaviorEvent) (policy : Policy) (caps : List Capability)
    (ctx : Option Text)
    → classify_event py (track_tool_ctx e ctx).0 policy caps ≡ classify_event py e policy caps
unfolding track_tool_ctx classify_event event_capability
classify_event-stamped py e policy caps ctx = refl

stamped-detail :
    (e : BehaviorEvent) (ctx : Option Text)
    → let e' = (track_tool_ctx e ctx).0 in
      ◌≡◌ {A = EventKind × Fields} (e'.kind, e'.detail) (e.kind, e.detail)
unfolding track_tool_ctx
stamped-detail e ctx = refl

-- Classifying a batch keeps the order, the kinds and the details of the events, and gives each its
-- own class, whatever tool context it is stamped with.
pub annotate_lem :
    (py : Builtins) (policy : Policy) (caps : List Capability) (ctx : Option Text)
    (es : List BehaviorEvent)
    → (map (λ e. e.classification) (annotate py policy caps ctx es)
        ≡ map (λ e. some (classify_event py e policy caps)) es)
      × (map {B = EventKind × Fields} (λ e. (e.kind, e.detail)) (annotate py policy caps ctx es)
          ≡ map {B = EventKind × Fields} (λ e. (e.kind, e.detail)) es)
unfolding annotate
annotate_lem py policy caps ctx [] = (refl, refl)
annotate_lem py policy caps ctx (e ∷ es) =
    let (classes, details) = annotate_lem py policy caps (track_tool_ctx e ctx).1 es in
    (
      ap₂ (λ c cs. some c ∷ cs) (classify_event-stamped py e policy caps ctx) classes,
      ap₂ (λ (d : EventKind × Fields) ds. d ∷ ds) (stamped-detail e ctx) details,
    )

module _ (py : Builtins) (parse : Text → Result Value)
    (float_raises : (v : Value) → Raises (py.to_float v))
    (parse_raises : (t : Text) (x : Exception) → parse t ≡ err x → x ≡ value_error) where
  -- After the `except` clause only a `ValueError` or an overflow is left.
  abbrev Reported : {A : Type 0} → Result A → Type 0
  Reported (ok a) = Unit
  Reported (err x) = (x ≡ value_error) ⊎ (x ≡ overflow_error)

  as_bad_event-Reported : {A : Type 0} (m : Result A) → Raises m → Reported (as_bad_event m)
  unfolding as_bad_event
  as_bad_event-Reported (ok a) h = tt
  as_bad_event-Reported (err value_error) h = inl refl
  as_bad_event-Reported (err key_error) h = inl refl
  as_bad_event-Reported (err type_error) h = inl refl
  as_bad_event-Reported (err overflow_error) h = inr refl
  as_bad_event-Reported (err attribute_error) h = elim h [ ]
  as_bad_event-Reported (err os_error) h = elim h [ ]
  as_bad_event-Reported (err runtime_error) h = elim h [ ]

  parse-Raises : (t : Text) → Raises (parse t)
  parse-Raises t = elim (Result-cases (parse t)) [
    | inl (v, e) ↦ rw e tt
    | inr (x, e) ↦ rw (e, parse_raises t x e) tt
  ]

  as_object-Raises : (v : Value) → Raises (as_object v)
  as_object-Raises (obj d) = tt
  as_object-Raises _ = tt

  remap-Raises : (d : Fields) → Raises (remap_unknown_kind d)
  unfolding remap_unknown_kind
  remap-Raises d = elim (Option-cases (usable_kind (get_or (txt "kind") null d))) [
    | inl e ↦ rw (e, Raises) tt
    | inr (k, e) ↦ rw (e, Raises) tt
  ]

  load_line-Reported : (line : Text) → Reported (load_line py parse line)
  unfolding load_line
  load_line-Reported line = as_bad_event-Reported _ (
      Raises->>= (parse line) _ (parse-Raises line) λ v.
        Raises->>= (as_object v) _ (as_object-Raises v) λ d.
          Raises->>= (remap_unknown_kind d) _ (remap-Raises d) λ (d', remapped).
            Raises->>= (event_from_dict py d') _ (event_from_dict-Raises py float_raises d')
              λ e. tt)

  Reported->>= :
      {A B : Type 0} (m : Result A) (f : A → Result B)
      → Reported m
      → ((a : A) → Reported (f a))
      → Reported (m >>= f)
  Reported->>= (ok a) f h k = k a
  Reported->>= (err x) f h k = h

  load_from-Reported :
      (n : ℕ) (w : Option ℕ) (lines : List Text) → Reported (load_from py parse n w lines)
  unfolding load_from
  load_from-Reported n w [] = tt
  load_from-Reported n w (raw ∷ lines) = elim (Bool-cases (is_empty (strip raw))) [
    | inl blank ↦ rw blank (load_from-Reported (n + 1) w lines)
    | inr full ↦ rw full (
        Reported->>= (load_line py parse (strip raw)) _ (load_line-Reported (strip raw))
          λ (e, remapped).
            Reported->>=
              (load_from py parse (n + 1) (if remapped && not (is_some w) then some n else w) lines)
              _ (load_from-Reported (n + 1) _ lines) λ (es, w'). tt)
  ]

  load_events-Reported : (lines : List Text) → Reported (load_events py parse lines)
  unfolding load_events
  load_events-Reported lines = load_from-Reported 1 none lines

  -- If opening and reading the file raise only OSError or ValueError, parsing a line only ValueError,
  -- and reading a time stamp only ValueError, KeyError, TypeError or an overflow, then loading a
  -- file of events raises only ValueError, an overflow, or the OSError of the file.
  pub load_events_jsonl-Reported :
      (opened : Result (List Text))
      → ((x : Exception) → opened ≡ err x → (x ≡ os_error) ⊎ (x ≡ value_error))
      → (x : Exception) → load_events_jsonl py parse opened ≡ err x
      → ((x ≡ value_error) ⊎ (x ≡ overflow_error)) ⊎ ((x ≡ os_error) × (opened ≡ err os_error))
  unfolding load_events_jsonl
  load_events_jsonl-Reported (ok lines) open_raises x e = inl (rw e at (load_events-Reported lines))
  load_events_jsonl-Reported (err y) open_raises x e = elim (open_raises y refl) [
    | inl o ↦ inr (cc, ap err o)
    | inr v ↦ inl (inl cc)
  ]
