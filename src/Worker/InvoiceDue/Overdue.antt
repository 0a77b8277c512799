-- ===== src/Worker/InvoiceDue/Overdue.antt =====
-- internal/worker/invoice_due.go: which subscriptions an overdue invoice changes.
use billing_simulator.Base.{
  ℕ, suc, ◌&&◌, take, ◌≡◌, refl, sym, ap, ◌∙◌, subst, true, false, ◌==◌, any, Option, none, some,
  List, [], ◌∷◌, Time, All, if◌then◌else◌,
}
use billing_simulator.Entity.Errors.{
  Outcome, returns, fails, panics, overflows, Error, Ensures, Ensures->>=, ◌>>=◌,
}
use billing_simulator.Entity.Events.{Uuid}
use billing_simulator.Entity.Status.{active, past_due, is_active, is_past_due, open_, same_status}
use billing_simulator.Entity.Aggregate.{Raise, raise_event}
use billing_simulator.Entity.Invoice.{Invoice}
use billing_simulator.Entity.Subscription.{Subscription, mark_past_due}
use billing_simulator.Repository.Table.{update_or, update_where-updated, sort_by, is_live}
use billing_simulator.Repository.Table.Sorted.{OnReturn, take-All, sort_by-All, find_all-OnReturn}
use billing_simulator.Repository.Invoices.{get_overdue, scan_row, is_before, due_or_zero}
use billing_simulator.Repository.Subscriptions.{update, set_columns}
use billing_simulator.Worker.InvoiceDue.{
  InvoiceDueConfig, Lookup, or_unchanged, mark_active, mark_found, process_subscription,
  process_overdue_invoice, process_each_overdue, process_answer, process_overdue_invoices,
}

-- A subscription as MarkPastDue leaves it.
late-of :
    (s : Subscription) (now : Time)
    → s.status ≡ active
    → Ensures (mark_past_due raise_event s now) (λ t. (t.id ≡ s.id) × (t.status ≡ past_due))
unfolding mark_past_due raise_event is_past_due
late-of s now k = rw k (refl, refl)

-- No row of the subscription has another status.
abbrev pub ArePastDue : Uuid → List Subscription → Type 0
ArePastDue id subs = All (λ row. (row.id == id) ≡ true → row.status ≡ past_due) subs

update-PastDue :
    (late s : Subscription) (subs : List Subscription)
    → late.id ≡ s.id
    → late.status ≡ past_due
    → any (λ row. row.id == s.id) subs ≡ true
    → Ensures (or_unchanged (update late none subs) subs) (ArePastDue s.id)
unfolding update update_or or_unchanged set_columns
update-PastDue late s subs same st row =
    rw (update, same, update_or, row)
      (update_where-updated (λ x. x.status ≡ past_due) (λ x. x.id == s.id) (set_columns late) subs
        λ x h. st)

mark_active-PastDue :
    (get_by_invoice_id : Lookup) (now : Time) (s : Subscription) (subs : List Subscription)
    → s.status ≡ active
    → any (λ row. row.id == s.id) subs ≡ true
    → Ensures (mark_active raise_event get_by_invoice_id now none s subs) (ArePastDue s.id)
unfolding mark_active
mark_active-PastDue get_by_invoice_id now s subs k row =
    let run = mark_past_due raise_event s now in
    let save : Subscription → Outcome (List Subscription) =
      λ late. or_unchanged (update late none subs) subs in
    subst (λ st. Ensures (if is_active st then (run >>= save) else returns subs) (ArePastDue s.id))
      (sym k)
      (Ensures->>= (λ t. (t.id ≡ s.id) × (t.status ≡ past_due)) (ArePastDue s.id) run save
        (late-of s now k) λ late h. update-PastDue late s subs h.0 h.1 row)

-- An overdue invoice whose lookup finds an active subscription makes it past due: with the Raise of
-- DomainEvents, where the update does not fail and the subscription has a row, the call returns, and
-- every row of the subscription is past due from then on.
pub process_overdue_invoice-PastDue :
    (get_by_invoice_id : Lookup) (now : Time) (inv : Invoice) (id : Uuid) (s : Subscription)
    (subs : List Subscription)
    → inv.subscription_id ≡ some id
    → get_by_invoice_id id subs ≡ returns (some s)
    → s.status ≡ active
    → any (λ row. row.id == s.id) subs ≡ true
    → Ensures
        (process_overdue_invoice raise_event get_by_invoice_id now none inv subs)
        (ArePastDue s.id)
unfolding process_overdue_invoice process_subscription mark_found
process_overdue_invoice-PastDue get_by_invoice_id now inv id s subs h found k row =
    rw (h, found) (mark_active-PastDue get_by_invoice_id now s subs k row)

-- A lookup by the identifier of an invoice finds no subscription under any other identifier.
abbrev pub Misses : Outcome (Option Subscription) → Type 0
Misses (returns none) = Unit
Misses (returns (some s)) = ⊥
Misses (fails e) = Unit
Misses panics = ⊥
Misses overflows = ⊥

abbrev pub FindsByInvoice : Lookup → List Invoice → Type 0
FindsByInvoice lookup invoices =
    (id : Uuid) (subs : List Subscription)
    → any (λ inv. inv.id == id) invoices ≡ false
    → Misses (lookup id subs)

-- No invoice has the identifier of a subscription.
abbrev pub IsOther : List Invoice → Option Uuid → Type 0
IsOther invoices none = Unit
IsOther invoices (some id) = any (λ inv. inv.id == id) invoices ≡ false

module _ (raise : Raise) (lookup : Lookup) (invoices : List Invoice)
    (honest : FindsByInvoice lookup invoices) where
  missed :
      (now : Time) (fault : Option Error) (r : Outcome (Option Subscription))
      (subs : List Subscription)
      → Misses r
      → mark_found raise lookup now fault r subs ≡ returns subs
  unfolding mark_found
  missed now fault (returns none) subs h = refl
  missed now fault (returns (some s)) subs h = absurd h
  missed now fault (fails e) subs h = refl
  missed now fault panics subs h = absurd h
  missed now fault overflows subs h = absurd h

  nothing_for :
      (now : Time) (fault : Option Error) (o : Option Uuid) (subs : List Subscription)
      → IsOther invoices o
      → process_subscription raise lookup now fault o subs ≡ returns subs
  unfolding process_subscription
  nothing_for now fault none subs h = refl
  nothing_for now fault (some id) subs h = missed now fault (lookup id subs) subs (honest id subs h)

  nothing_for_each :
      (clock : ℕ → Time) (fault : ℕ → Option Error) (n : ℕ) (invs : List Invoice)
      (subs : List Subscription)
      → All (λ inv. IsOther invoices inv.subscription_id) invs
      → process_each_overdue raise lookup clock fault n invs subs ≡ returns subs
  unfolding process_each_overdue process_overdue_invoice
  nothing_for_each clock fault n [] subs h = refl
  nothing_for_each clock fault n (inv ∷ invs) subs (h, hs) =
      ap (λ r. r >>= process_each_overdue raise lookup clock fault (suc n) invs)
        (nothing_for (clock n) (fault n) inv.subscription_id subs h)
      ∙ nothing_for_each clock fault (suc n) invs subs hs

  nothing_for_answer :
      (clock : ℕ → Time) (fault : ℕ → Option Error) (r : Outcome (List Invoice))
      (subs : List Subscription)
      → OnReturn r (All (λ inv. IsOther invoices inv.subscription_id))
      → process_answer raise lookup clock fault r subs ≡ returns subs
  unfolding process_answer
  nothing_for_answer clock fault (returns invs) subs h = nothing_for_each clock fault 0 invs subs h
  nothing_for_answer clock fault (fails e) subs h = refl
  nothing_for_answer clock fault panics subs h = absurd h
  nothing_for_answer clock fault overflows subs h = absurd h

  -- processOverdueInvoice looks the subscription up by the identifier of a subscription, where the
  -- interface wants that of an invoice: over a lookup that finds no subscription under what is no
  -- invoice's identifier, and where no subscription of an invoice has the identifier of one, a round of
  -- the worker changes no subscription, however many invoices are overdue and whatever fails.
  pub overdue_marks_nothing :
      (c : InvoiceDueConfig) (now : Time) (failure : Option Error) (clock : ℕ → Time)
      (fault : ℕ → Option Error) (subs : List Subscription)
      → All (λ inv. IsOther invoices inv.subscription_id) invoices
      → process_overdue_invoices raise lookup c now failure clock fault invoices subs ≡ returns subs
  unfolding process_overdue_invoices get_overdue scan_row
  overdue_marks_nothing c now failure clock fault subs h =
      let P : Invoice → Type 0 = λ inv. IsOther invoices inv.subscription_id in
      nothing_for_answer clock fault (get_overdue now c.batch_size failure invoices) subs (
        find_all-OnReturn P
          (λ x. same_status x.status open_ && (is_before now x.due_date && is_live x.deleted_at))
          (λ rows. take c.batch_size (sort_by (λ x. due_or_zero x.due_date) rows)) scan_row failure
          invoices
          (λ ys q.
            take-All P c.batch_size (sort_by (λ x. due_or_zero x.due_date) ys)
              (sort_by-All P (λ x. due_or_zero x.due_date) ys q))
          (λ x q. q) h)
