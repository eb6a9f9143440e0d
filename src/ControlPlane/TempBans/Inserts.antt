-- ===== src/ControlPlane/TempBans/Inserts.antt =====
-- The rows that the inserts of a batch add.
use mathlib.Core.List.{append_assoc, append-nil}
use xdp_firewall.Prelude.{
  ℕ, suc, ◌+◌, ◌≡◌, sym, ap, ◌∙◌, arith, Bool, Option, List, [], ◌∷◌, ◌++◌, length, ok,
  ok-injective,
}
use xdp_firewall.Prelude.Int.{ℤ, pos}
use xdp_firewall.Exec.{pure, ◌>>=◌, bind-ok}
use xdp_firewall.Text.{Text}
use xdp_firewall.Net.{Ipnet}
use xdp_firewall.Policy.Rows.{TempBanRow}
use xdp_firewall.ControlPlane.Database.{Tables, Database}
use xdp_firewall.ControlPlane.Database.Outcomes.{statement-ok}
use xdp_firewall.ControlPlane.TempBanInput.{ActiveModel}
use xdp_firewall.ControlPlane.TempBans.{row_of, insert_row, insert, insert_all}

-- The rows of the models, with the ids behind `last`.
abbrev pub rows_from :
    {DateTime : Type 0} → ℕ → List (ActiveModel DateTime) → List (TempBanRow DateTime)
rows_from last [] = []
rows_from last (model ∷ models) = row_of (pos (suc last)) model ∷ rows_from (suc last) models

-- The tables with the rows of the models.
abbrev pub with_rows :
    {DateTime : Type 0} → List (ActiveModel DateTime) → Tables DateTime → Tables DateTime
with_rows models t = record t {
  temp_bans = t.temp_bans ++ rows_from t.last_temp_ban_id models;
  last_temp_ban_id = t.last_temp_ban_id + length models;
}

module _ (net : Ipnet) (parse : Text → Option net.IpNet) {DateTime : Type 0}
    (add_seconds : DateTime → ℤ → Option DateTime) (fails : ℕ → Bool) (now : ℕ → DateTime) where
  with_rows-insert_row :
      (model : ActiveModel DateTime) (models : List (ActiveModel DateTime)) (t : Tables DateTime)
      → with_rows models (insert_row model t).1 ≡ with_rows (model ∷ models) t
  with_rows-insert_row model models t =
      let last = t.last_temp_ban_id in
      let count : suc last + length models ≡ last + suc (length models) = omega arith in
      λ i. record t {
        temp_bans =
            append_assoc t.temp_bans (row_of (pos (suc last)) model ∷ [])
              (rows_from (suc last) models) i;
        last_temp_ban_id = count i;
      }

  pub insert_all-ok :
      (models : List (ActiveModel DateTime)) (d : Database DateTime)
      {rows : List (TempBanRow DateTime)} {after : Database DateTime}
      → insert_all net parse add_seconds fails now models d ≡ (ok rows, after)
      → (rows ≡ rows_from d.tables.last_temp_ban_id models)
        × (after.tables ≡ with_rows models d.tables)
  unfolding insert_all insert
  insert_all-ok [] d h =
      let count : d.tables.last_temp_ban_id ≡ d.tables.last_temp_ban_id + 0 = omega arith in
      (
        ok-injective (sym (ap (λ p. p.0) h)),
        sym (ap (λ p. p.1.tables) h) ∙ (λ i. record d.tables {
          temp_bans = sym (append-nil d.tables.temp_bans) i;
          last_temp_ban_id = count i;
        }),
      )
  insert_all-ok (model ∷ models) d h =
      let (row, one, e0, h0) =
        bind-ok (insert net parse add_seconds fails now model)
          (λ row. insert_all net parse add_seconds fails now models >>= λ rows. pure (row ∷ rows)) d
          h in
      let (rest, done, e1, h1) =
        bind-ok (insert_all net parse add_seconds fails now models) (λ rows. pure (row ∷ rows)) one
          h0 in
      let (is_row, inserted) = statement-ok fails (insert_row model) d e0 in
      let (are_rows, all_inserted) = insert_all-ok models one e1 in
      let behind : rest ≡ rows_from (suc d.tables.last_temp_ban_id) models =
        are_rows ∙ ap (λ (t : Tables DateTime). rows_from t.last_temp_ban_id models) inserted in
      (
        ok-injective (sym (ap (λ p. p.0) h1)) ∙ (λ i. is_row i ∷ behind i),
        sym (ap (λ p. p.1.tables) h1)
            ∙ all_inserted
            ∙ ap (with_rows models) inserted
            ∙ with_rows-insert_row model models d.tables,
      )
