-- ===== src/Sjf.antt =====
-- The shortest-job-first part of pintos/src/threads/thread.c: estimates of how long a thread runs,
-- kept by name in all_all_list.
pub mod Estimate
pub mod Lookup
use calendarizador.Prelude.{
  ℕ, Bool, true, false, ◌&&◌, Option, none, some, List, [], ◌∷◌, ◌==◌, if◌then◌else◌,
}
use calendarizador.Prelude.Int.{ℤ, pos, negsuc, ltb_ℤ, eqb_ℤ}
use calendarizador.LinkedList.{list_push_back, list_sort}
use calendarizador.FixedPoint.{int_to_fp, div_int, sub_fp, mult_int, add_fp, fp_to_int_round}
use calendarizador.Kernel.{Ptr, Thread, Kernel, K, ◌>>=◌, ◌>>◌, pure, get, modify, lift, load, edit}
use calendarizador.Scheduler.{thread_current}

-- Whether strcmp gives 0.
unfoldable pub same_name : List ℕ → List ℕ → Bool
same_name [] [] = true
same_name [] (b ∷ bs) = false
same_name (a ∷ as') [] = false
same_name (a ∷ as') (b ∷ bs) = a == b && same_name as' bs

abbrev pub total_exec_of : (Ptr → Option Thread) → Ptr → ℤ
total_exec_of threads t = elim (threads t) [ none ↦ pos 0 | some th ↦ th.total_exec ]

-- The comparison by which thread_exit sorts the ready list. The code reads both pages without a test;
-- a page that is not live counts as 0 here.
unfoldable pub duration_cmp : (Ptr → Option Thread) → Ptr → Ptr → Bool
duration_cmp threads left right = ltb_ℤ (total_exec_of threads left) (total_exec_of threads right)

-- The loop of get_total_exec over what is left of all_all_list.
unfoldable pub find_total_exec : List ℕ → List Ptr → K (Option ℤ)
find_total_exec name [] = pure none
find_total_exec name (t ∷ ts) = do
  th ← load t
  if same_name th.name name then pure (some th.total_exec) else find_total_exec name ts

unfoldable pub get_total_exec : Ptr → K ℤ
get_total_exec t = do
  th ← load t
  k ← get
  found ← find_total_exec th.name k.all_all_list
  elim found [
    | some total ↦ pure total
    | none ↦ do
      modify (λ k. record k { all_all_list = list_push_back k.all_all_list t })
      pure (pos 0)
  ]

unfoldable pub get_total_exec_each : Ptr → K (Unit {0})
unfolding get_total_exec
get_total_exec_each t = do total ← get_total_exec t; edit t (λ th. record th { total_exec = total })

-- t_new = alpha * t_recent + (1 - alpha) * t_old, with alpha one half.
unfoldable pub new_total_exec : ℤ → ℤ → Option ℤ
new_total_exec old recent =
    if eqb_ℤ old (pos 0) then some recent else elim (div_int (int_to_fp (pos 1)) (pos 2)) [
      | none ↦ none
      | some alpha ↦
          let alpha_alt = sub_fp (int_to_fp (pos 1)) alpha in
          let recent_val = mult_int alpha recent in
          let old_val = mult_int alpha_alt old in some (fp_to_int_round (add_fp recent_val old_val))
    ]

unfoldable pub calc_new_total_exec : ℤ → ℤ → K (Unit {0})
unfolding new_total_exec thread_current
calc_new_total_exec old recent = do
  res ← lift (new_total_exec old recent)
  cur ← thread_current
  edit cur (λ th. record th { total_exec = res })

-- update_exec_time, over what is left of all_all_list: the name is not read.
unfoldable pub update_each : ℤ → List Ptr → K (Unit {0})
update_each total_exec [] = pure tt
update_each total_exec (t ∷ ts) = do
  edit t (λ th. record th { total_exec = total_exec })
  update_each total_exec ts

unfoldable pub update_exec_time : List ℕ → ℤ → K (Unit {0})
unfolding update_each
update_exec_time name total_exec = do k ← get; update_each total_exec k.all_all_list
