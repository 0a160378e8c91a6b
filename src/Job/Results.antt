-- ===== src/Job/Results.antt =====
-- The histograms of a result: maps in order, with the last count that is given for each key.
use mqss_client.Common.{
  ℕ, ◌≡◌, inl, inr, true, Option, none, some, List, [], ◌∷◌, Bool-cases, if◌then◌else◌,
}
use mqss_client.Common.Bytes.{Str, txt, str_eq}
use mqss_client.Common.Effects.{Result, ok, >>=-eq-ok, ◌>>=◌}
use mqss_client.Standard.Map.{insert, lookup}
use mqss_client.Standard.Map.Laws.{IsSorted, insert-IsSorted, lookup-insert}
use mqss_client.Json.{JsonLib}
use mqss_client.Job.{
  Histogram, JobResult, read_counts, read_maps, read_results, string_at, job_result_of_json,
}

module _ (J : JsonLib) where
  open J use {Json, accept, parse, is_array, elements, items, get_unsigned, at, get_string}

  read_counts-IsSorted :
      (h h' : Histogram) (kvs : List (Str × Json))
      → IsSorted h
      → read_counts J h kvs ≡ ok h'
      → IsSorted h'
  unfolding read_counts
  read_counts-IsSorted h h' [] s e = let same : h ≡ h' = cc in rw (← same) s
  read_counts-IsSorted h h' ((k, v) ∷ kvs) s e =
      let (n, _, e') = >>=-eq-ok (get_unsigned v) _ e in
      read_counts-IsSorted (insert k n h) h' kvs (insert-IsSorted k n h s) e'

  -- What a key comes to: the count of its last binding, or what was there before.
  abbrev pub last_count : Option ℕ → Str → List (Str × Json) → Result (Option ℕ)
  last_count old k [] = ok old
  last_count old k ((j, v) ∷ kvs) = do
    n ← get_unsigned v
    last_count (if str_eq k j then some n else old) k kvs

  read_counts-lookup :
      (h h' : Histogram) (kvs : List (Str × Json)) (k : Str)
      → read_counts J h kvs ≡ ok h'
      → last_count (lookup k h) k kvs ≡ ok (lookup k h')
  unfolding read_counts
  read_counts-lookup h h' [] k e = let same : h ≡ h' = cc in rw same
  read_counts-lookup h h' ((j, v) ∷ kvs) k e =
      let (n, en, e') = >>=-eq-ok (get_unsigned v) _ e in
      rw en (rw (← (lookup-insert j k n h)) (read_counts-lookup (insert j n h) h' kvs k e'))

  -- A histogram is in the order of its keys, has each once, and gives each the count that its last
  -- member in `json` has.
  pub record Counts (json : Json) (h : Histogram) : Type 0 where
    pub sorted : IsSorted h
    pub counts : (k : Str) → last_count none k (items json) ≡ ok (lookup k h)

  read_counts-Counts :
      (json : Json) (h : Histogram) → read_counts J [] (items json) ≡ ok h → Counts json h
  unfolding lookup
  read_counts-Counts json h e = record {
    sorted = read_counts-IsSorted [] h (items json) tt e;
    counts = λ k. read_counts-lookup [] h (items json) k e;
  }

  abbrev pub AllCounts : List Json → List Histogram → Type 0
  AllCounts [] [] = Unit
  AllCounts [] (_ ∷ _) = ⊥
  AllCounts (_ ∷ _) [] = ⊥
  AllCounts (j ∷ js) (h ∷ hs) = Counts j h × AllCounts js hs

  read_maps-AllCounts :
      (js : List Json) (hs : List Histogram) → read_maps J js ≡ ok hs → AllCounts js hs
  unfolding read_maps
  read_maps-AllCounts [] [] e = tt
  read_maps-AllCounts [] (_ ∷ _) e = cc
  read_maps-AllCounts (j ∷ js) hs e =
      let (h, eh, e₁) = >>=-eq-ok (read_counts J [] (items j)) _ e in
      let (rest, er, e₂) = >>=-eq-ok (read_maps J js) _ e₁ in
      let same : h ∷ rest ≡ hs = cc in
      rw (← same) (read_counts-Counts j h eh, read_maps-AllCounts js rest er)

  -- The maps that the text of a result stands for.
  abbrev pub result_maps : Json → List Json
  result_maps maps = if is_array maps then elements maps else maps ∷ []

  -- A result whose text is JSON has a histogram for each element of the text's array, or a single
  -- one for a text that is no array, in order; and its time stamps are the strings of the response.
  pub record IsResult (parsed : Json) (r : JobResult) : Type 0 where
    pub text : Str
    pub maps : Json
    pub text_at : string_at J parsed (txt "result") ≡ ok text
    pub parsed_maps : parse text ≡ ok maps
    pub histograms : AllCounts (result_maps maps) r.results
    pub completed : string_at J parsed (txt "timestamp_completed") ≡ ok r.timestamp_completed
    pub submitted : string_at J parsed (txt "timestamp_submitted") ≡ ok r.timestamp_submitted
    pub scheduled : string_at J parsed (txt "timestamp_scheduled") ≡ ok r.timestamp_scheduled

  read_results-AllCounts :
      (maps : Json) (hs : List Histogram)
      → read_results J maps ≡ ok hs
      → AllCounts (result_maps maps) hs
  unfolding read_results
  read_results-AllCounts maps hs e = elim (Bool-cases (is_array maps)) [
    | inl many ↦ rw many (read_maps-AllCounts (elements maps) hs (rw many at e))
    | inr single ↦
        let (h, eh, e₁) = >>=-eq-ok (read_counts J [] (items maps)) _ (rw single at e) in
        let same : h ∷ [] ≡ hs = cc in rw single (rw (← same) (read_counts-Counts maps h eh, tt))
  ]

  -- If the member "result" is a string that is JSON, a result that is read has a histogram for each
  -- element of that text's array, or a single one if it is no array, in order, and the time stamps
  -- of the response; each histogram is in the order of its keys, has each once, and gives each the
  -- count of its last member.
  pub job_result_of_json-IsResult :
      (parsed : Json) (text : Str) (r : JobResult)
      → string_at J parsed (txt "result") ≡ ok text
      → accept text ≡ true
      → job_result_of_json J parsed ≡ ok r
      → IsResult parsed r
  unfolding job_result_of_json
  job_result_of_json-IsResult parsed text r at_text accepted e =
      let (maps, em, e₁) = >>=-eq-ok (parse text) _ (rw (at_text, accepted) at e) in
      let (hs, eh, e₂) = >>=-eq-ok (read_results J maps) _ e₁ in
      let (c, ec, e₃) = >>=-eq-ok (string_at J parsed (txt "timestamp_completed")) _ e₂ in
      let (s, es, e₄) = >>=-eq-ok (string_at J parsed (txt "timestamp_submitted")) _ e₃ in
      let (d, ed, e₅) = >>=-eq-ok (string_at J parsed (txt "timestamp_scheduled")) _ e₄ in
      let read : JobResult = record {
        results = hs;
        timestamp_completed = c;
        timestamp_submitted = s;
        timestamp_scheduled = d;
      } in
      let same : read ≡ r = cc in
      rw (← same) (record {
        text = text;
        maps = maps;
        text_at = at_text;
        parsed_maps = em;
        histograms = read_results-AllCounts maps hs eh;
        completed = ec;
        submitted = es;
        scheduled = ed;
      })
