-- ===== src/Enrichment/Laws.antt =====
-- What an enrichment leaves of a lot.
use gektar_monitor.Prelude.{
  ℕ, ◌+◌, ◌≡◌, refl, sym, subst, false, Bool-cases, if◌then◌else◌, Option, none, some, List, [],
  ◌∷◌, inl, inr,
}
use gektar_monitor.Domain.{Instant, Lot, EnrichmentStatus}
use gektar_monitor.Domain.Failures.{Failure, is_version_mismatch}
use gektar_monitor.Domain.Parsed.{ParsedDetail}
use gektar_monitor.Enrichment.{
  or_else, Answer, detail, refused, enriched, unenriched, enrich_one, Site, collect, enrich_lots,
  in_front,
}

-- The date of the detail, or the old one when the detail has none.
pub data Dated (new old : Option Instant) (date : Option Instant) : Type 0 where
  taken : (t : Instant) → new ≡ some t → date ≡ some t → Dated new old date
  kept : new ≡ none → date ≡ old → Dated new old date

or_else-Dated : (new old : Option Instant) → Dated new old (or_else new old)
or_else-Dated none old = kept refl refl
or_else-Dated (some t) old = taken t refl refl

-- One lot and what became of it at position `i`, with the fields that are written spelt out.
pub data Enriches (site : Site) (i : ℕ) (lot l : Lot) : Type 0 where
  success :
      (d : ParsedDetail) (registry update : Option Instant)
      → site.answer i ≡ detail d
      → Dated d.date_registry lot.date_registry registry
      → Dated d.date_update lot.date_update update
      → l ≡ record lot {
        lat = d.lat;
        lon = d.lon;
        has_boundaries = d.has_boundaries;
        date_registry = registry;
        date_update = update;
        raw_json = d.raw_json;
        parser_version = d.parser_version;
        detail_fetched_at = some (site.fetched_at i);
        enrichment_status = some EnrichmentStatus.done;
      }
      → Enriches site i lot l
  failure :
      (e : Failure)
      → site.answer i ≡ refused e
      → is_version_mismatch e.kind ≡ false
      → l ≡ record lot { enrichment_status = some EnrichmentStatus.failed }
      → Enriches site i lot l

-- The lots of a call from position `i` on, one for one and in order.
abbrev pub EnrichesAll : Site → ℕ → List Lot → List Lot → Type 0
EnrichesAll site i [] [] = Unit
EnrichesAll site i [] (l ∷ ls) = ⊥
EnrichesAll site i (lot ∷ lots) [] = ⊥
EnrichesAll site i (lot ∷ lots) (l ∷ ls) = Enriches site i lot l × EnrichesAll site (i + 1) lots ls

in_front-some :
    (first : Option Lot) (rest : Option (List Lot)) (out : List Lot)
    → in_front first rest ≡ some out
    → (l : Lot) × (ls : List Lot) × (first ≡ some l) × (rest ≡ some ls) × (out ≡ l ∷ ls)
in_front-some none rest out e = cc
in_front-some (some l) none out e = cc
in_front-some (some l) (some ls) out e = (l, ls, refl, refl, cc)

Enriches_lem :
    (site : Site) (i : ℕ) (lot l : Lot) (a : Answer)
    → site.answer i ≡ a
    → enrich_one a (site.fetched_at i) lot ≡ some l
    → Enriches site i lot l
unfolding enrich_one enriched unenriched
Enriches_lem site i lot l (detail d) was e =
    let same : enriched d (site.fetched_at i) lot ≡ l = cc e in
    success d _ _ was (or_else-Dated d.date_registry lot.date_registry)
      (or_else-Dated d.date_update lot.date_update) (sym same)
Enriches_lem site i lot l (refused f) was e = elim (Bool-cases (is_version_mismatch f.kind)) [
  | inl q ↦ cc (subst (λ b. (if b then none else some (unenriched lot)) ≡ some l) q e)
  | inr q ↦
      let p : some (unenriched lot) ≡ some l =
        subst (λ b. (if b then none else some (unenriched lot)) ≡ some l) q e in
      let same : unenriched lot ≡ l = cc p in failure f was q (sym same)
]

collect-EnrichesAll :
    (site : Site) (i : ℕ) (lots out : List Lot)
    → collect site i lots ≡ some out
    → EnrichesAll site i lots out
unfolding collect
collect-EnrichesAll site i [] [] e = tt
collect-EnrichesAll site i [] (l ∷ ls) e = cc e
collect-EnrichesAll site i (lot ∷ lots) out e =
    let (l, ls, first, rest, same) =
      in_front-some (enrich_one (site.answer i) (site.fetched_at i) lot) (collect site (i + 1) lots)
        out e in
    subst (EnrichesAll site i (lot ∷ lots)) (sym same) (
      Enriches_lem site i lot l (site.answer i) refl first,
      collect-EnrichesAll site (i + 1) lots ls rest,
    )

-- If the enrichment returns, it returns the lots one for one and in order. A lot whose detail was read
-- has the coordinates, the boundaries, the raw JSON and the parser version of the detail, its dates
-- where the detail has them, the time of the answer and the mark `done`; each other lot is as it was
-- but for the mark `failed`, and what was raised for it was no `ParserVersionMismatch`. Nothing else
-- of a lot changes.
pub enrich_lots-EnrichesAll :
    (site : Site) (lots out : List Lot)
    → enrich_lots site lots ≡ some out
    → EnrichesAll site 0 lots out
unfolding enrich_lots
enrich_lots-EnrichesAll site lots out e = collect-EnrichesAll site 0 lots out e
