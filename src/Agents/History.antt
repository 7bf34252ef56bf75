-- ===== src/Agents/History.antt =====
-- The reports that internal/store/agent_repo.go keeps of each host.
use almanaut.Base.{
  Bool-cases, List, [], ap, arith, beq_refl, bool_eq, if◌then◌else◌, inl, inr, length, list_eq,
  nat_beq_iff, nat_eq, pair_eq, refl, select, some, string_eq, suc, take, zero, ℕ, ◌==◌, ◌∙◌, ◌∷◌,
  ◌≡◌, ◌≢◌, ◌≤◌,
}
use almanaut.Agents.Store.{
  AgentDb, StoredReport, agent_report_retention, latest_report, prune, record_report,
}

abbrev pub reports_of : ℕ → List StoredReport → List StoredReport
reports_of id reports = select (λ r. r.host_id == id) reports

prune-own :
    (id limit : ℕ) (reports : List StoredReport)
    → reports_of id (prune id limit reports) ≡ take limit (reports_of id reports)
unfolding prune
prune-own id zero [] = refl
prune-own id (suc limit) [] = refl
prune-own id zero (r ∷ reports) = elim (Bool-cases (r.host_id == id)) [
  | inl own ↦ rw (own) (prune-own id zero reports)
  | inr other ↦ rw (other, other) (prune-own id zero reports)
]
prune-own id (suc limit) (r ∷ reports) = elim (Bool-cases (r.host_id == id)) [
  | inl own ↦ rw (own, own) (ap (λ l. r ∷ l) (prune-own id limit reports))
  | inr other ↦ rw (other, other) (prune-own id (suc limit) reports)
]

prune-others :
    (id limit other : ℕ) (reports : List StoredReport)
    → id ≢ other
    → reports_of other (prune id limit reports) ≡ reports_of other reports
unfolding prune
prune-others id zero other [] apart = refl
prune-others id (suc limit) other [] apart = refl
prune-others id zero other (r ∷ reports) apart = elim (Bool-cases (r.host_id == id)) [
  | inl own ↦
      rw own (
        prune-others id zero other reports apart ∙ ground (arith, (nat_beq_iff r.host_id id).0 own))
  | inr foreign ↦
      rw foreign (
        ap (λ l. if r.host_id == other then r ∷ l else l)
          (prune-others id zero other reports apart))
]
prune-others id (suc limit) other (r ∷ reports) apart = elim (Bool-cases (r.host_id == id)) [
  | inl own ↦ rw own (
      ap (λ l. if r.host_id == other then r ∷ l else l) (prune-others id limit other reports apart))
  | inr foreign ↦ rw foreign (
      ap (λ l. if r.host_id == other then r ∷ l else l)
        (prune-others id (suc limit) other reports apart))
]

length-take : {A : Type 0} (n : ℕ) (xs : List A) → length (take n xs) ≤ n
length-take zero xs = omega arith
length-take (suc n) [] = omega arith
length-take (suc n) (x ∷ xs) = omega (arith, length-take n xs)

-- Recording a report keeps the newest reports of its host, this one first and thirty at most, and every
-- report of the other hosts. It is the host's latest report then.
pub record_report_lem :
    (r : StoredReport) (db : AgentDb)
    → (reports_of r.host_id (record_report r db).reports
        ≡ take agent_report_retention (r ∷ reports_of r.host_id db.reports))
      × (length (reports_of r.host_id (record_report r db).reports) ≤ agent_report_retention)
      × ((other : ℕ)
          → r.host_id ≢ other
          → reports_of other (record_report r db).reports ≡ reports_of other db.reports)
      × (latest_report r.host_id (record_report r db) ≡ some r)
unfolding record_report latest_report
record_report_lem r db =
    let own : reports_of r.host_id (prune r.host_id agent_report_retention (r ∷ db.reports))
        ≡ take agent_report_retention (r ∷ reports_of r.host_id db.reports) =
      prune-own r.host_id agent_report_retention (r ∷ db.reports)
      ∙ ap
          (λ b.
            take agent_report_retention
              (if b then r ∷ reports_of r.host_id db.reports else reports_of r.host_id db.reports))
          (beq_refl r.host_id) in
    (
      own,
      rw own (length-take agent_report_retention (r ∷ reports_of r.host_id db.reports)),
      λ other apart.
          prune-others r.host_id agent_report_retention other (r ∷ db.reports) apart
          ∙ ground (arith, nat_beq_iff r.host_id other),
      unfold prune in rw (beq_refl r.host_id) (rw (beq_refl r.host_id) refl),
    )
