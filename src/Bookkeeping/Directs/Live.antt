-- ===== src/Bookkeeping/Directs/Live.antt =====
-- Which transactions have a live direct assignment, and of what amount, after each write.
use vb_api.Prelude.{
  ◌≡◌, refl, Uuid, false, not, ◌&&◌, ◌||◌, List, [], ◌∷◌, ◌++◌, map, filter, contains, ◌==◌,
  if◌then◌else◌, arith,
}
use vb_api.Prelude.Int.{ℤ, pos, ◌+ℤ◌, sum, int_laws}
use vb_api.Bookkeeping.Store.{Instant, Direct, is_live_direct}
use vb_api.Bookkeeping.Amounts.{Decimal, to_cents}
use vb_api.Bookkeeping.Directs.{soft_delete_directs, new_directs, amounts, is_empty}

abbrev pub live_ids : List Direct → List Uuid
live_ids ds = map (λ (d : Direct). d.transaction_id) (filter is_live_direct ds)

-- The sum of the live direct assignments of one transaction.
abbrev pub live_amount : Uuid → List Direct → ℤ
live_amount u [] = pos 0
live_amount u (d ∷ ds) =
    (if d.transaction_id == u && is_live_direct d then d.amount else pos 0) +ℤ live_amount u ds

pub contains-live_ids_append :
    (u : Uuid) (ds es : List Direct)
    → contains u (live_ids (ds ++ es)) ≡ (contains u (live_ids ds) || contains u (live_ids es))
contains-live_ids_append u [] es = refl
contains-live_ids_append u (d ∷ ds) es = ground (arith, contains-live_ids_append u ds es)

pub contains-soft_delete :
    (now : Instant) (u t : Uuid) (ds : List Direct)
    → contains u (live_ids (soft_delete_directs now t ds))
      ≡ (if t == u then false else contains u (live_ids ds))
unfolding soft_delete_directs
contains-soft_delete now u t [] = ground arith
contains-soft_delete now u t (d ∷ ds) = ground (arith, contains-soft_delete now u t ds)

pub contains-new_directs :
    (u t : Uuid) (slots : List (Uuid × Decimal))
    → contains u (live_ids (new_directs t slots)) ≡ (t == u && not (is_empty slots))
contains-new_directs u t [] = ground arith
contains-new_directs u t (s ∷ slots) = ground (arith, contains-new_directs u t slots)

pub live_amount-append :
    (u : Uuid) (ds es : List Direct)
    → live_amount u (ds ++ es) ≡ live_amount u ds +ℤ live_amount u es
live_amount-append u [] es = omega int_laws
live_amount-append u (d ∷ ds) es = rw (live_amount-append u ds es) (omega int_laws)

pub live_amount-soft_delete :
    (now : Instant) (u t : Uuid) (ds : List Direct)
    → live_amount u (soft_delete_directs now t ds) ≡ (if t == u then pos 0 else live_amount u ds)
unfolding soft_delete_directs
live_amount-soft_delete now u t [] = ground arith
live_amount-soft_delete now u t (d ∷ ds) = grind (int_laws, live_amount-soft_delete now u t ds)

pub live_amount-new_directs :
    (u t : Uuid) (slots : List (Uuid × Decimal))
    → live_amount u (new_directs t slots)
      ≡ (if t == u then sum (map to_cents (amounts slots)) else pos 0)
live_amount-new_directs u t [] = ground arith
live_amount-new_directs u t (s ∷ slots) = grind (int_laws, live_amount-new_directs u t slots)
