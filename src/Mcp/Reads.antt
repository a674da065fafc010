-- ===== src/Mcp/Reads.antt =====
-- What an agent reaches: by `call` reads alone, and by the methods themselves no write without a lease.
use notebook_launcher.Prelude.{
  ◌≡◌, Bool, true, false, Option, none, some, List, [], ◌∷◌, refl, ℕ, all, arith, not,
}
use notebook_launcher.Action.{Result, permission_denied}
use notebook_launcher.Steps.{raise_if, ◌>>=◌, ◌>>◌}
use notebook_launcher.Steps.Preserves.{Preserves, preserving}
use notebook_launcher.Mcp.Requests.{
  Method, notebook_read, cell_read, output_read, Request, is_readonly_method, Event, attached,
  leased, requested, Adapter, Gateway, Values, validated,
}
use notebook_launcher.Mcp.Adapter.{inspect_notebook}
use notebook_launcher.Mcp.Adapter.{
  request, attach, validate_attachment, read_notebook_cell, read_notebook_output,
}
use notebook_launcher.Mcp.Calls.{dispatch, call}
use notebook_launcher.Mcp.Gate.{IsGuarded, is_read}
use notebook_launcher.Mcp.Guarded.{dispatch-IsGuarded}

-- An attachment is checked, or a backend is asked to read.
abbrev pub is_harmless : Event → Bool
is_harmless (attached b) = true
is_harmless (leased b) = false
is_harmless (requested r) = is_read r

abbrev pub IsHarmless : Adapter → Type 0
IsHarmless a = all is_harmless a.events ≡ true

module _ {V : Type 0} (g : Gateway V) where
  read-IsHarmless : (r : Request) → is_read r ≡ true → Preserves IsHarmless (request g r)
  unfolding request
  read-IsHarmless r e = record { holds_after = λ a h. ground arith }

  attach-IsHarmless :
      (v : Option (ℕ → List Event → Result (Unit {0}))) (i : Option ℕ)
      → Preserves IsHarmless (attach g v i)
  unfolding attach validated
  attach-IsHarmless none i = search preserving
  attach-IsHarmless (some v) none = search preserving
  attach-IsHarmless (some v) (some i) = record { holds_after = λ a h. ground arith }

  dispatch-IsHarmless :
      (m : Method) (v : Values)
      → is_readonly_method m ≡ true
      → Preserves IsHarmless (dispatch g m v)
  unfolding dispatch inspect_notebook read_notebook_cell read_notebook_output validate_attachment
  dispatch-IsHarmless notebook_read v h =
      search (preserving, attach-IsHarmless, read-IsHarmless) depth 20
  dispatch-IsHarmless cell_read v h =
      search (preserving, attach-IsHarmless, read-IsHarmless) depth 20
  dispatch-IsHarmless output_read v h =
      search (preserving, attach-IsHarmless, read-IsHarmless) depth 20
  dispatch-IsHarmless _ v h = cc

  admitted :
      (m : Method) (v : Values) (b : Bool)
      → (b ≡ true → Preserves IsHarmless (dispatch g m v))
      → Preserves IsHarmless (raise_if (not b) permission_denied >> dispatch g m v)
  unfolding raise_if ◌>>=◌
  admitted m v true h = record { holds_after = λ a p. (h refl).holds_after a p }
  admitted m v false h = record { holds_after = λ a p. p }

  call-IsHarmless : (m : Method) (v : Values) → Preserves IsHarmless (call g m v)
  unfolding call
  call-IsHarmless m v = admitted m v (is_readonly_method m) (dispatch-IsHarmless m v)

  -- Calls by name, one after another.
  abbrev pub calls : List (Method × Values) → Adapter → Adapter
  calls [] a = a
  calls ((m, v) ∷ l) a = calls l (call g m v a).1

  -- The methods themselves, one after another, without the test of the method.
  abbrev pub dispatches : List (Method × Values) → Adapter → Adapter
  dispatches [] a = a
  dispatches ((m, v) ∷ l) a = dispatches l (dispatch g m v a).1

  keep-IsHarmless :
      (l : List (Method × Values)) (a : Adapter) → IsHarmless a → IsHarmless (calls l a)
  keep-IsHarmless [] a h = h
  keep-IsHarmless ((m, v) ∷ l) a h =
      keep-IsHarmless l (call g m v a).1 ((call-IsHarmless m v).holds_after a h)

  keep-IsGuarded :
      (l : List (Method × Values)) (a : Adapter) → IsGuarded a → IsGuarded (dispatches l a)
  keep-IsGuarded [] a h = h
  keep-IsGuarded ((m, v) ∷ l) a h =
      keep-IsGuarded l (dispatch g m v a).1 ((dispatch-IsGuarded g m v).holds_after a h)

  -- In either mode and with any lease, calls by name on an adapter without a history only check the
  -- attachment and ask the backends to read: the notebook, a cell or an output.
  pub calls-IsHarmless :
      (l : List (Method × Values)) (a : Adapter) → a.events ≡ [] → IsHarmless (calls l a)
  calls-IsHarmless l a e = keep-IsHarmless l a (rw e refl)

  -- On an adapter without a history, every request of a method that is not a read comes right after
  -- the lease was found to be valid, whatever the validators and the backends answer or raise.
  pub dispatches-IsGuarded :
      (l : List (Method × Values)) (a : Adapter) → a.events ≡ [] → IsGuarded (dispatches l a)
  dispatches-IsGuarded l a e = keep-IsGuarded l a (rw e refl)
