-- ===== src/Wrapper/Poll/Start.antt =====
-- The start of a polling thread in scbtn_poll of src/scanbd/scanbuttond_wrapper.c, when no option may
-- have several actions.
use scanbd.Prelude.{
  ℕ, ◌≤◌, length, zero, suc, ◌≡◌, ◌⊎◌, refl, ◌∙◌, inl, inr, true, false, Bool-cases, some, List, [],
  ◌∷◌, CString, is_neg, length-replicate, arith,
}
use scanbd.Sane.Types.{Regex, Section}
use scanbd.Sane.Poll.Setup.{Config, DeviceSection}
use scanbd.Scanbuttond.Device.{is_zero}
use scanbd.Scanbuttond.Meta.{Module}
use scanbd.Wrapper.Match.{ScbtnThread}
use scanbd.Wrapper.Match.Bounds.{ScbtnTable, KeepsTable, scbtn_find_matching_options-KeepsTable}
use scanbd.Wrapper.Poll.{
  ScbtnPoller, asking, ended, scanbtnd_button_name, empty_entry, allocate_opts, match_actions,
  match_locals, scbtn_table, start_opened, scbtn_opened, scbtn_poll_start,
}
use scanbd.Wrapper.Poll.Valid.{ScbtnValid}

allocate_opts-ScbtnTable : (n : ℕ) → ScbtnTable (allocate_opts n)
allocate_opts-ScbtnTable n = record {
  array = length-replicate n empty_entry;
  used = omega arith;
  buttons = tt;
  scripts = tt;
  distinct = tt;
}

module _ (re : Regex) (backend_name : CString) (cfg : Config)
    (single : cfg.multiple_actions ≡ false) where
  match_actions-KeepsTable :
      (st : ScbtnThread) (sec : Section)
      → ScbtnTable st
      → KeepsTable st (match_actions re backend_name cfg st sec)
  match_actions-KeepsTable st sec t =
      rw single
        (scbtn_find_matching_options-KeepsTable re (scanbtnd_button_name backend_name) st sec t)

  match_locals-KeepsTable :
      (product : CString) (locs : List DeviceSection) (st : ScbtnThread)
      → ScbtnTable st
      → KeepsTable st (match_locals re backend_name cfg product locs st)
  unfolding match_locals
  match_locals-KeepsTable product [] st t = (st, refl, t, refl)
  match_locals-KeepsTable product (loc ∷ locs) st t =
      let skipped = match_locals-KeepsTable product locs st t in
      elim (Bool-cases (is_neg (re.regcomp loc.filter))) [
        | inl e ↦ rw e skipped
        | inr e ↦ elim (Bool-cases (re.matches loc.filter product)) [
          | inl e' ↦
              let (st', run, t', same) = match_actions-KeepsTable st loc.section t in
              let (st'', run', t'', same') = match_locals-KeepsTable product locs st' t' in
              rw (e, e') (st'', rw run run', t'', same' ∙ same)
          | inr e' ↦ rw (e, e') skipped
        ]
      ]

  table-KeepsTable :
      (product : CString) (n : ℕ)
      → KeepsTable (allocate_opts n) (scbtn_table re backend_name cfg product n)
  unfolding scbtn_table
  table-KeepsTable product n =
      let (st, run, t, same) =
        match_actions-KeepsTable (allocate_opts n) cfg.global (allocate_opts-ScbtnTable n) in
      let (st', run', t', same') = match_locals-KeepsTable product cfg.devices st t in
      (st', rw run run', t', same' ∙ same)

  module _ {S : Type 0} (backend : Module S) where
    -- The thread has ended, or is about to ask for a button with a valid table of at most as many
    -- entries as the scanner has buttons, in an array of as many.
    abbrev pub IsStarted : ScbtnPoller S → Type 0
    IsStarted s =
        (s.phase ≡ ended)
        ⊎ ((s.phase ≡ asking)
            × ScbtnValid s
            × (s.thread.num_of_options ≡ s.dev.num_buttons)
            × (length s.thread.opts ≡ s.dev.num_buttons)
            × (s.thread.num_of_options_with_scripts ≤ s.dev.num_buttons))

    opened-IsStarted :
        (s : ScbtnPoller S) (n : ℕ)
        → s.triggered ≡ false
        → s.dev.num_buttons ≡ n
        → (s' : ScbtnPoller S) × (start_opened backend re backend_name cfg s n ≡ some s')
          × IsStarted s'
    unfolding start_opened
    opened-IsStarted s zero quiet e = (record s { phase = ended }, refl, inl refl)
    opened-IsStarted s (suc n) quiet e =
        let (table, run, t, same) = table-KeepsTable s.dev.product (suc n) in
        (
          record s { thread = table; phase = asking },
          rw run refl,
          inr (
            refl,
            record {
              used = omega (arith, t.used, t.array);
              scripts = t.scripts;
              trigger = λ on. absurd (ground (arith, on, quiet));
            },
            omega (arith, same, e),
            omega (arith, t.array, same, e),
            omega (arith, t.used, same, e),
          ),
        )

    -- Without multiple actions and without a trigger the start of a polling thread meets no fault,
    -- whatever the configuration, the scanner and the result of its opening are: the thread ends, or
    -- it is about to ask for a button, with an array of as many entries as the scanner has
    -- buttons, of which at most all are in use, each with a script.
    pub scbtn_poll_start-IsStarted :
        (s : ScbtnPoller S)
        → s.triggered ≡ false
        → (s' : ScbtnPoller S) × (scbtn_poll_start backend re backend_name cfg s ≡ some s')
          × IsStarted s'
    unfolding scbtn_opened
    scbtn_poll_start-IsStarted s quiet =
        let (result, dev, state) = backend.open_scanner s.dev s.state in
        let here = record s { dev = dev; state = state } in
        elim (Bool-cases (is_zero result)) [
          | inl z ↦ rw z (opened-IsStarted here dev.num_buttons quiet refl)
          | inr z ↦ (record here { phase = ended; alarm = true }, rw z refl, inl refl)
        ]
