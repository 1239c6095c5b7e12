-- ===== src/Reports/Queries.antt =====
-- The lists and the numbers that the admins see.
use drawback_backend.Prelude.{
  Option, sort_desc-IsDescending, count-sort_desc, All, All-mono, All-select, All-sort_desc, Bool,
  Bool-cases, inl, inr, some, none, subst, ==_iff, ◌==◌, ◌∙◌, IsDescending, ℕ, List, ◌≡◌, refl, ◌+◌,
  arith, count, [], ◌∷◌, true, select,
}
use drawback_backend.Schema.{Database}
use drawback_backend.Schema.Entities.{Report}
use drawback_backend.Schema.Enums.{ReportStatus, ReportType}
use drawback_backend.Reports.{
  get_report_stats, ReportFilters, list_reports, is_listed, has_status, has_type, if_set,
}

counts_add :
    (rs : List Report)
    → count (λ _. true) rs
      ≡ count (λ r. has_status ReportStatus.pending r.status) rs
        + count (λ r. has_status ReportStatus.under_review r.status) rs
        + count (λ r. has_status ReportStatus.resolved r.status) rs
        + count (λ r. has_status ReportStatus.dismissed r.status) rs
unfolding count
counts_add [] = refl
counts_add (r ∷ rs) = let rest = counts_add rs in ground arith

-- The four numbers of the statistics add up to the total.
pub get_report_stats-adds_up :
    (db : Database)
    → let s = get_report_stats db in s.total ≡ s.pending + s.under_review + s.resolved + s.dismissed
unfolding get_report_stats
get_report_stats-adds_up db = counts_add db.reports

-- Every filter that is set holds of the report.
pub record Meets (filters : ReportFilters) (reported reporter : Option ℕ) (r : Report)
    : Type 0 where
  pub status : (s : ReportStatus) → filters.status ≡ some s → has_status r.status s ≡ true
  pub type : (t : ReportType) → filters.report_type ≡ some t → has_type r.report_type t ≡ true
  pub about : (u : ℕ) → reported ≡ some u → r.reported_user_id ≡ u
  pub from_user : (u : ℕ) → reporter ≡ some u → r.reporter_id ≡ u

if_set-some {ℓ} :
    {A : Type ℓ} (o : Option A) (p : A → Bool) (a : A) → if_set o p ≡ true → o ≡ some a → p a ≡ true
if_set-some none p a h e = ground arith
if_set-some (some b) p a h e = let same : b ≡ a = ground arith in subst (λ x. p x ≡ true) same h

if_set_all {ℓ} :
    {A : Type ℓ} (o : Option A) (p : A → Bool)
    → ((a : A) → o ≡ some a → p a ≡ true)
    → if_set o p ≡ true
if_set_all none p h = refl
if_set_all (some a) p h = h a refl

module _ (filters : ReportFilters) (reported reporter : Option ℕ) where
  pub is_listed-Meets :
      (r : Report)
      → is_listed filters reported reporter r ≡ true
      → Meets filters reported reporter r
  is_listed-Meets r h = record {
    status = λ s e. if_set-some filters.status (has_status r.status) s (ground arith) e;
    type = λ t e. if_set-some filters.report_type (has_type r.report_type) t (ground arith) e;
    about = λ u e.
        (==_iff _ _).0 (if_set-some reported (λ u. r.reported_user_id == u) u (ground arith) e);
    from_user =
        λ u e. (==_iff _ _).0 (if_set-some reporter (λ u. r.reporter_id == u) u (ground arith) e);
  }

  Meets-is_listed :
      (r : Report)
      → Meets filters reported reporter r
      → is_listed filters reported reporter r ≡ true
  Meets-is_listed r m =
      let a = if_set_all filters.status (has_status r.status) m.status in
      let b = if_set_all filters.report_type (has_type r.report_type) m.type in
      let c =
        if_set_all reported (λ u. r.reported_user_id == u) (λ u e. (==_iff _ _).1 (m.about u e)) in
      let d =
        if_set_all reporter (λ u. r.reporter_id == u) (λ u e. (==_iff _ _).1 (m.from_user u e)) in
      rw (a, b, c, d) refl

-- A test that holds only of selected rows counts the same before the selection and after it.
count-select_within {ℓ} :
    {A : Type ℓ} (p q : A → Bool) (xs : List A)
    → ((x : A) → q x ≡ true → p x ≡ true)
    → count q (select p xs) ≡ count q xs
unfolding count select
count-select_within p q [] h = refl
count-select_within p q (x ∷ xs) h =
    let rest = count-select_within p q xs h in
    elim (Bool-cases (q x)) [ inl e ↦ let chosen = h x e in ground arith | inr e ↦ ground arith ]

-- The list that an admin gets, for filters and for the ids of the users that they name, has only
-- reports that meet all filters that are set; it leaves out and repeats none of these, so that a test
-- that holds only of such reports counts the same in the list as in the table; and it is ordered from
-- the newest to the oldest.
pub list_reports-Meets :
    (filters : ReportFilters) (reported reporter : Option ℕ) (db : Database) (q : Report → Bool)
    → ((r : Report) → q r ≡ true → Meets filters reported reporter r)
    → let rs = list_reports filters reported reporter db in
      All (Meets filters reported reporter) rs
      × (count q rs ≡ count q db.reports)
      × IsDescending (λ r. r.created_at) rs
unfolding list_reports
list_reports-Meets filters reported reporter db q h =
    let p = is_listed filters reported reporter in
    (
      All-sort_desc _ _ _ (
          All-mono (select p db.reports) (is_listed-Meets filters reported reporter)
            (All-select p db.reports)),
      count-sort_desc _ q (select p db.reports)
          ∙ count-select_within p q db.reports
              (λ r e. Meets-is_listed filters reported reporter r (h r e)),
      sort_desc-IsDescending _ _,
    )
