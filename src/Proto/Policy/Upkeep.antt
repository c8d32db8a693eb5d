-- ===== src/Proto/Policy/Upkeep.antt =====
-- src/proto/policy.rs: adding, readying and removing pipes, and a list covered by its pipes.
use mathlib.Core.Bool.{false≢true}
use mathlib.Core.HLevel.{⊥_prop}
use mathlib.Core.Logic.{∥∥₁_elim}
use scaproust.Prelude.{
  ℕ, ◌≡◌, ◌≤◌, sym, ◌∙◌, inl, inr, Bool, true, false, some, ok, arith, get_elem?, ==_iff, ==_refl,
  get_elem?-append_cases, Bool-cases,
}
use scaproust.Core.Endpoint.{Pipe}
use scaproust.Proto.Priolist.{Item, Priolist, peek, insert, activate, deactivate, remove}
use scaproust.Proto.Priolist.Invariant.{IsValid, IsFresh, insert-IsValid}
use scaproust.Proto.Priolist.Activate.{Marks, activate-IsValid}
use scaproust.Proto.Priolist.Deactivate.{deactivate-IsValid}
use scaproust.Proto.Priolist.Displaced.{remove-IsValid}
use scaproust.Proto.Priolist.Remove.{Displaces}
use scaproust.Proto.Priolist.Pop.{peek_iff}
use scaproust.Proto.Pipes
use scaproust.Proto.Pipes.{PipeCollection, get-insert, get-remove}
use scaproust.Proto.Policy.Covered.{IsCovered, HasPipes}

-- A list that is not ready does not become so.
abbrev pub StaysUnready : Priolist → Priolist → Type 0
StaysUnready l l' = peek l ≡ false → peek l' ≡ false

pub unready-inactive :
    (l : Priolist) (j : ℕ) (y : Item)
    → IsValid l
    → peek l ≡ false
    → get_elem? l.items j ≡ some y
    → y.active ≡ true
    → ⊥
unready-inactive l j y v off e on = false≢true (sym off ∙ (peek_iff l v).1 ∣ (j, y, e, on) ∣₁)

inactive-unready :
    (l : Priolist)
    → IsValid l
    → ((j : ℕ) (y : Item) → get_elem? l.items j ≡ some y → y.active ≡ true → ⊥)
    → peek l ≡ false
inactive-unready l v idle = elim (Bool-cases (peek l)) [
  | inr off ↦ off
  | inl on ↦ absurd (∥∥₁_elim ((peek_iff l v).0 on) ⊥_prop (λ (j, y, e, a). idle j y e a))
]

Marks-HasPipes :
    (l l' : Priolist) (id : ℕ) (b : Bool) (ps : PipeCollection)
    → Marks l id b l'
    → HasPipes l.items ps
    → HasPipes l'.items ps
Marks-HasPipes l l' id b ps (_, marks) h j y e =
    let (z, f, same) = marks j y e in
    let value : y.value ≡ z.value = ground arith in rw value (h j z f)

pub activate-IsCovered :
    (l : Priolist) (id : ℕ) (ps : PipeCollection)
    → IsCovered l ps
    → (l' : Priolist) × (activate l id ≡ ok l') × IsCovered l' ps × Marks l id true l'
activate-IsCovered l id ps c =
    let (l', e, v, m) = activate-IsValid l id c.valid in
    (l', e, record { valid = v; has_pipes = Marks-HasPipes l l' id true ps m c.has_pipes }, m)

pub deactivate-IsCovered :
    (l : Priolist) (id : ℕ) (ps : PipeCollection)
    → IsCovered l ps
    → (l' : Priolist) × (deactivate l id ≡ ok l') × IsCovered l' ps × StaysUnready l l'
deactivate-IsCovered l id ps c =
    let (l', e, v, m) = deactivate-IsValid l id c.valid in
    (
      l',
      e,
      record { valid = v; has_pipes = Marks-HasPipes l l' id false ps m c.has_pipes },
      λ off. inactive-unready l' v λ j y f on.
          let (z, g, same) = m.1 j y f in unready-inactive l j z c.valid off g (ground arith),
    )

pub insert-IsCovered :
    (l : Priolist) (id prio : ℕ) (p : Pipe) (ps : PipeCollection)
    → IsCovered l ps
    → IsFresh l id
    → prio ≤ 16
    → p.id ≡ id
    → IsCovered (insert l id prio) (Pipes.insert ps id p) × StaysUnready l (insert l id prio)
unfolding insert
insert-IsCovered l id prio p ps c fresh bound same =
    let v = insert-IsValid l id prio c.valid fresh bound in
    (
      record {
        valid = v;
        has_pipes = λ j x e. elim (get_elem?-append_cases l.items _ x j e) [
          | inl (_, f) ↦
              (let (q, g, h) = c.has_pipes j x f in
                (q, get-insert ps id x.value p ∙ ground (arith, fresh j x f, ==_iff id x.value), h))
          | inr (_, f) ↦ (p, get-insert ps id x.value p ∙ ground (arith, ==_refl id), ground arith)
        ];
      },
      λ off. inactive-unready (insert l id prio) v λ j y e on.
          elim (get_elem?-append_cases l.items _ y j e) [
            | inl (_, f) ↦ unready-inactive l j y c.valid off f on
            | inr (_, f) ↦ ground arith
          ],
    )

pub remove-IsCovered :
    (l : Priolist) (id : ℕ) (ps : PipeCollection)
    → IsCovered l ps
    → ¬ Displaces l id
    → (l' : Priolist) × (remove l id ≡ ok l')
      × IsCovered l' (Pipes.remove ps id)
      × StaysUnready l l'
remove-IsCovered l id ps c still =
    let (l', e, v, (gone, _, origin)) = remove-IsValid l id c.valid still in
    (
      l',
      e,
      record {
        valid = v;
        has_pipes = λ j x f.
            let (k, g) = origin j x f in
            let (q, h, same) = c.has_pipes k x g in
            (q, get-remove ps id x.value ∙ ground (arith, gone j x f, ==_iff id x.value), same);
      },
      λ off.
          inactive-unready l' v
            λ j y f on. let (k, g) = origin j y f in unready-inactive l k y c.valid off g on,
    )
