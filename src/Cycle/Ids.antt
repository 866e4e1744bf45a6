-- ===== src/Cycle/Ids.antt =====
-- The ids of the lots of a cycle, from the rows of the page to the enriched lots.
use gektar_monitor.Prelude.{
  ℕ, suc, ◌+◌, ◌≡◌, refl, ap, Bool, true, List, [], ◌∷◌, length, map, Option-cases, inl, inr, All,
}
use gektar_monitor.Domain.{Instant, Lot}
use gektar_monitor.Domain.Regions.{subject_id_by_title}
use gektar_monitor.Domain.Parsed.{ParsedListRow, parsed_row_to_lot}
use gektar_monitor.Enrichment.{Site, enriched, unenriched, enrich_lots}
use gektar_monitor.Enrichment.Laws.{
  Enriches, success, failure, EnrichesAll, enrich_lots-EnrichesAll,
}
use gektar_monitor.Cycle.Run.{converted, convert, enriched_or}

abbrev pub lot_ids : List Lot → List ℕ
lot_ids = map (λ (l : Lot). l.id)

abbrev pub row_ids : List ParsedListRow → List ℕ
row_ids = map (λ (r : ParsedListRow). r.id)

pub converted_ids :
    (converts : ParsedListRow → Bool) (now : Instant) (i : ℕ) (rows : List ParsedListRow)
    → All (λ row. converts row ≡ true) rows
    → (lots : List Lot) × (convert converts now i rows ≡ converted lots)
      × (lot_ids lots ≡ row_ids rows)
unfolding convert parsed_row_to_lot
converted_ids converts now i [] h = ([], refl, refl)
converted_ids converts now i (row ∷ rows) h =
    let (lots, q, same) = converted_ids converts now (i + 1) rows h.1 in
    (
      parsed_row_to_lot row now (subject_id_by_title row.region) ∷ lots,
      rw (convert, h.0, q) refl,
      ap (λ ns. row.id ∷ ns) same,
    )

Enriches-id : (site : Site) (i : ℕ) (lot l : Lot) → Enriches site i lot l → l.id ≡ lot.id
unfolding enriched unenriched
Enriches-id site i lot l (success d registry update q r s same) = ap (λ (x : Lot). x.id) same
Enriches-id site i lot l (failure e q r same) = ap (λ (x : Lot). x.id) same

EnrichesAll-ids :
    (site : Site) (i : ℕ) (lots out : List Lot)
    → EnrichesAll site i lots out
    → lot_ids out ≡ lot_ids lots
EnrichesAll-ids site i [] [] h = refl
EnrichesAll-ids site i [] (l ∷ ls) h = absurd h
EnrichesAll-ids site i (lot ∷ lots) [] h = absurd h
EnrichesAll-ids site i (lot ∷ lots) (l ∷ ls) (h, hs) =
    cc (Enriches-id site i lot l h, EnrichesAll-ids site (i + 1) lots ls hs)

pub enriched_ids :
    (site : Site) (lots : List Lot)
    → lot_ids (enriched_or lots (enrich_lots site lots)) ≡ lot_ids lots
enriched_ids site lots = elim (Option-cases (enrich_lots site lots)) [
  | inl q ↦ rw q refl
  | inr (out, q) ↦ rw q (EnrichesAll-ids site 0 lots out (enrich_lots-EnrichesAll site lots out q))
]

pub length-ids : (lots : List Lot) → length (lot_ids lots) ≡ length lots
length-ids [] = refl
length-ids (l ∷ ls) = ap suc (length-ids ls)

pub length-row_ids : (rows : List ParsedListRow) → length (row_ids rows) ≡ length rows
length-row_ids [] = refl
length-row_ids (r ∷ rs) = ap suc (length-row_ids rs)
