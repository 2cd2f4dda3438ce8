-- ===== src/Kafka/Reader/Trace.antt =====
-- The trace context of a message: what the writer injects into the headers, the reader extracts.
use go_payment.Prelude.{
  ◌≡◌, refl, subst, String, Option, none, some, List, [], ◌∷◌, str_eq, eq_iff, if◌then◌else◌,
  Bool-cases, inl, inr,
}
use go_payment.Prelude.Map.{assign, lookup, lookup-assign, Unique, IsRange}
use go_payment.Exec.{ok}
use go_payment.Kafka.Reader.{Received, Reader, carrier, fetch}

abbrev pub or_before : Option String → Option String → Option String
or_before none before = before
or_before (some v) before = some v

carrier_step :
    (name n v : String) (hs : List (String × String)) (before : Option String)
    → lookup n hs ≡ none
    → or_before (lookup name hs) (if str_eq n name then some v else before)
      ≡ or_before (if str_eq n name then some v else lookup name hs) before
carrier_step name n v hs before h = elim (Bool-cases (str_eq n name)) [
  | inl here ↦
      let e : lookup name hs ≡ none =
        subst (λ (k : String). lookup k hs ≡ none) ((eq_iff n name).0 here) h in
      rw (here, e) refl
  | inr there ↦ rw there refl
]

carrier_lem :
    (name : String) (hs m : List (String × String))
    → Unique hs
    → lookup name (carrier hs m) ≡ or_before (lookup name hs) (lookup name m)
unfolding carrier lookup
carrier_lem name [] m u = refl
carrier_lem name ((n, v) ∷ hs) m u =
    rw (carrier_lem name hs (assign n v m) u.1, lookup-assign name n v m)
      (carrier_step name n v hs (lookup name m) u.0)

-- Documented of the trace-context and baggage propagators: Extract reads the carrier by Get alone.
abbrev pub ReadsByGet : {C : Type 0} → (List (String × String) → C) → Type 0
ReadsByGet extract =
    (m m' : List (String × String))
    → ((name : String) → lookup name m ≡ lookup name m')
    → extract m ≡ extract m'

or_none : (o : Option String) → or_before o none ≡ o
or_none none = refl
or_none (some v) = refl

-- For a propagator whose Extract reads its carrier by Get alone, and a message whose headers are
-- the entries of the map that was injected, in any order: Fetch returns the message with the
-- context that Extract makes of the injected map.
pub fetch_context :
    {S C : Type 0} (r : Reader S C) (s s' : S) (msg : Received) (injected : List (String × String))
    → ReadsByGet r.extract
    → IsRange msg.headers injected
    → r.fetch_message s ≡ (ok msg, s')
    → fetch r s ≡ (ok (msg, r.extract injected), s')
unfolding fetch lookup
fetch_context r s s' msg injected reads range got =
    let same : r.extract (carrier msg.headers []) ≡ r.extract injected =
      reads (carrier msg.headers []) injected (λ name.
        rw
          (
            carrier_lem name msg.headers [] range.unique,
            range.same name,
            or_none (lookup name injected),
          )
          refl) in
    rw (got, same) refl
