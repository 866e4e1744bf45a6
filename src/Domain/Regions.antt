-- ===== src/Domain/Regions.antt =====
-- `subject_id_by_title` of src/fis_monitor/domain/regions.py, with its catalog of the subjects of
-- the federation.
use gektar_monitor.Prelude.{ℕ, String, Option, none, some, List, [], ◌∷◌, str_eq, if◌then◌else◌}

-- `SUBJECT_TITLE_BY_ID`
abbrev pub subject_title_by_id : List (ℕ × String)
subject_title_by_id =
    (27, "Республика Карелия")
    ∷ (28, "Республика Коми")
    ∷ (29, "Архангельская область")
    ∷ (30, "Ненецкий автономный округ")
    ∷ (34, "Мурманская область")
    ∷ (68, "Ханты-Мансийский автономный округ")
    ∷ (69, "Ямало-Ненецкий автономный округ")
    ∷ (72, "Республика Бурятия")
    ∷ (76, "Красноярский край")
    ∷ (85, "Забайкальский край")
    ∷ (87, "Республика Саха (Якутия)")
    ∷ (88, "Приморский край")
    ∷ (89, "Хабаровский край")
    ∷ (90, "Амурская область")
    ∷ (91, "Камчатский край")
    ∷ (93, "Магаданская область")
    ∷ (94, "Сахалинская область")
    ∷ (95, "Еврейская автономная область")
    ∷ (96, "Чукотский автономный округ")
    ∷ []

-- `{title: sid for sid, title in SUBJECT_TITLE_BY_ID.items()}`, where a later title wins.
unfoldable pub id_of_title : String → List (ℕ × String) → Option ℕ
id_of_title title [] = none
id_of_title title ((sid, name) ∷ rest) =
    let later = id_of_title title rest in
    elim later [ some n ↦ some n | none ↦ if str_eq name title then some sid else none ]

unfoldable pub subject_id_by_title : String → Option ℕ
unfolding id_of_title
subject_id_by_title title = if str_eq title "" then none else id_of_title title subject_title_by_id
