-- ===== src/Jobs/Sql/Index.antt =====
-- The two indexes of the table `jobs` of app/db/models.py: the primary key and the idempotency keys.
use async_job_processing_pip.Prelude.{
  ◌≡◌, refl, sym, ◌∙◌, subst, inl, inr, true, Option, none, some, [], ◌∷◌, arith, ◌==◌, nat_eq,
  String, if◌then◌else◌, Bool-cases, some-injective,
}
use async_job_processing_pip.Prelude.Dict.{Dict, get, put, get-put}
use async_job_processing_pip.Jobs.{Uuid, JobRecord}
use async_job_processing_pip.Jobs.Memory.{values}
use async_job_processing_pip.Jobs.Sql.{same_key, find_row}

-- A row stands under its own id, and under that alone.
abbrev pub IsIndexed : Dict Uuid JobRecord → Type 0
IsIndexed [] = Unit
IsIndexed ((i, row) ∷ rows) = (row.id ≡ i) × (get i rows ≡ none) × IsIndexed rows

pub put-IsIndexed :
    (i : Uuid) (job : JobRecord) (rows : Dict Uuid JobRecord)
    → job.id ≡ i
    → IsIndexed rows
    → IsIndexed (put i job rows)
unfolding put get
put-IsIndexed i job [] named indexed = (named, refl, tt)
put-IsIndexed i job ((j, row) ∷ rows) named (named', free, indexed) =
    let rest = put-IsIndexed i job rows named indexed in
    elim (Bool-cases (j == i)) [
      | inl same ↦
          let at : i ≡ j = sym ((nat_eq.beq_iff j i).0 same) in rw same (named ∙ at, free, indexed)
      | inr other ↦
          let still : get j (put i job rows) ≡ none =
            ground
              (arith, get-put i j job rows, other, free, nat_eq.beq_iff i j, nat_eq.beq_iff j i) in
          rw other (named', still, rest)
    ]

pub get-named :
    (i : Uuid) (rows : Dict Uuid JobRecord) {row : JobRecord}
    → IsIndexed rows
    → get i rows ≡ some row
    → row.id ≡ i
unfolding get
get-named i [] indexed h = absurd (ground (arith, h))
get-named i ((j, other) ∷ rows) {row} (named, free, indexed) h = elim (Bool-cases (j == i)) [
  | inl same ↦
      let here : some other ≡ some row = rw same at h in
      subst (λ (r : JobRecord). r.id ≡ i) (some-injective here)
        (named ∙ (nat_eq.beq_iff j i).0 same)
  | inr before ↦ get-named i rows indexed (rw before at h)
]

-- A row that is found by its idempotency key is the one under its id.
pub find_row-get :
    (key : String) (rows : Dict Uuid JobRecord) {row : JobRecord}
    → IsIndexed rows
    → find_row key (values rows) ≡ some row
    → get row.id rows ≡ some row
unfolding find_row get
find_row-get key [] indexed h = absurd (ground (arith, h))
find_row-get key ((j, other) ∷ rows) {row} (named, free, indexed) h =
    elim (Bool-cases (same_key other.idempotency_key key)) [
      | inl here ↦
          let head : other ≡ row = some-injective (rw here at h) in
          let at : (j == other.id) ≡ true = (nat_eq.beq_iff j other.id).1 (sym named) in
          subst (λ (r : JobRecord). get r.id ((j, other) ∷ rows) ≡ some r) head (rw at refl)
      | inr before ↦
          let found = find_row-get key rows indexed (rw before at h) in
          elim (Bool-cases (j == row.id)) [
            | inl same ↦
                let at : j ≡ row.id = (nat_eq.beq_iff j row.id).0 same in
                absurd (ground (arith, subst (λ k. get k rows ≡ none) at free, found))
            | inr other ↦ rw other found
          ]
    ]

abbrev pub id_of : Option JobRecord → Option Uuid
id_of none = none
id_of (some row) = some row.id

-- What a new row changes in the index of idempotency keys.
pub find_row-insert :
    (key : String) (i : Uuid) (job : JobRecord) (rows : Dict Uuid JobRecord)
    → get i rows ≡ none
    → id_of (find_row key (values (put i job rows))) ≡ elim (find_row key (values rows)) [
      | some row ↦ some row.id
      | none ↦ if same_key job.idempotency_key key then some job.id else none
    ]
unfolding find_row get put
find_row-insert key i job [] free = ground arith
find_row-insert key i job ((j, row) ∷ rows) free = elim (Bool-cases (j == i)) [
  | inl same ↦ absurd (ground (arith, free, same))
  | inr other ↦
      let rest = find_row-insert key i job rows (rw other at free) in
      elim (Bool-cases (same_key row.idempotency_key key)) [
        | inl here ↦ rw other (rw here refl)
        | inr before ↦ rw other (rw before rest)
      ]
]

-- A change of a row that keeps its id and its key changes nothing there.
pub find_row-update :
    (key : String) (i : Uuid) (job : JobRecord) (rows : Dict Uuid JobRecord) {row : JobRecord}
    → get i rows ≡ some row
    → job.id ≡ row.id
    → job.idempotency_key ≡ row.idempotency_key
    → id_of (find_row key (values (put i job rows))) ≡ id_of (find_row key (values rows))
unfolding find_row get put
find_row-update key i job [] stored same_id same_key' = absurd (ground (arith, stored))
find_row-update key i job ((j, other) ∷ rows) {row} stored same_id keyed =
    elim (Bool-cases (j == i)) [
      | inl same ↦
          let head : row ≡ other = sym (some-injective (rw same at stored)) in
          let id : job.id ≡ other.id = subst (λ (r : JobRecord). job.id ≡ r.id) head same_id in
          let k : job.idempotency_key ≡ other.idempotency_key =
            subst (λ (r : JobRecord). job.idempotency_key ≡ r.idempotency_key) head keyed in
          rw same (ground (arith, id, k))
      | inr before ↦
          let rest = find_row-update key i job rows (rw before at stored) same_id keyed in
          elim (Bool-cases (same_key other.idempotency_key key)) [
            | inl here ↦ rw before (rw here refl)
            | inr later ↦ rw before (rw later rest)
          ]
    ]
