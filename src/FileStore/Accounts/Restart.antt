-- ===== src/FileStore/Accounts/Restart.antt =====
-- The positions and balances of src/infrastructure/postgres_repositories.cpp survive a restart.
use wall.Core.{BalanceSnapshot, Position}
use wall.Fields.Doubles.{DoubleText, IsNumeric, Survives, Survives-ne_nil, stod-Survives}
use wall.Fields.Instruments.{
  WritableInstrument, instrument_fields, instrument_fields-IsField, instrument_of-fields,
  shown-IsField, shown17-IsField,
}
use wall.Fields.Laws.{IsField}
use wall.FileStore.{Table, no_table}
use wall.FileStore.Accounts.{
  balance_fields, balance_of, balances, get_balance, get_position, open_balances, open_positions,
  position_fields, position_of, positions, save_balance, save_position,
}
use wall.FileStore.Reload.{Storable}
use wall.FileStore.Reopen.{
  IsSaved, calls-IsSaved, open_table-IsSaved, saved-IsSaved, stored-IsKeyedBy,
}
use wall.Prelude.{List, String, [], foldl, refl, some, ◌∷◌, ◌≡◌, ◌⊳◌}

pub record WritablePosition (N : DoubleText) (p : Position) : Type 0 where
  pub id_field : IsField p.position_id
  pub instrument_writable : WritableInstrument N p.instrument
  pub net_survives : Survives N N.shown p.net_quantity
  pub average_survives : Survives N N.shown p.average_entry_price
  pub realized_survives : Survives N N.shown p.realized_pnl
  pub unrealized_survives : Survives N N.shown p.unrealized_pnl

pub record WritableBalance (N : DoubleText) (b : BalanceSnapshot) : Type 0 where
  pub asset_field : IsField b.asset
  pub total_survives : Survives N N.shown17 b.total_balance
  pub available_survives : Survives N N.shown17 b.available_balance

position_of-position_fields :
    (N : DoubleText) (p : Position)
    → WritablePosition N p
    → position_of N (position_fields N p) ≡ some p
unfolding position_of position_fields instrument_fields
position_of-position_fields N p w =
    rw
      (
        instrument_of-fields N p.instrument w.instrument_writable,
        stod-Survives N N.shown p.net_quantity w.net_survives,
        stod-Survives N N.shown p.average_entry_price w.average_survives,
        stod-Survives N N.shown p.realized_pnl w.realized_survives,
        stod-Survives N N.shown p.unrealized_pnl w.unrealized_survives,
      )
      refl

WritablePosition-Storable :
    (N : DoubleText) (p : Position)
    → IsNumeric N
    → WritablePosition N p
    → Storable 12 (position_of N) (position_fields N) p
unfolding position_fields instrument_fields
WritablePosition-Storable N p n w = record {
  fields =
      w.id_field
      ⊳ instrument_fields-IsField N p.instrument
          (N.shown p.net_quantity
            ∷ N.shown p.average_entry_price
            ∷ N.shown p.realized_pnl
            ∷ N.shown p.unrealized_pnl
            ∷ [])
          n w.instrument_writable
          (shown-IsField N n p.net_quantity
            ⊳ shown-IsField N n p.average_entry_price
            ⊳ shown-IsField N n p.realized_pnl
            ⊳ shown-IsField N n p.unrealized_pnl
            ⊳ tt);
  last = Survives-ne_nil N N.shown p.unrealized_pnl n w.unrealized_survives;
  width_is = refl;
  read = position_of-position_fields N p w;
}

WritableBalance-Storable :
    (N : DoubleText) (b : BalanceSnapshot)
    → IsNumeric N
    → WritableBalance N b
    → Storable 3 (balance_of N) (balance_fields N) b
unfolding balance_of balance_fields
WritableBalance-Storable N b n w = record {
  fields =
      w.asset_field
      ⊳ shown17-IsField N n b.total_balance
      ⊳ shown17-IsField N n b.available_balance
      ⊳ tt;
  last = Survives-ne_nil N N.shown17 b.available_balance n w.available_survives;
  width_is = refl;
  read =
      rw
        (
          stod-Survives N N.shown17 b.total_balance w.total_survives,
          stod-Survives N N.shown17 b.available_balance w.available_survives,
        )
        refl;
}

save_position-IsSaved :
    (N : DoubleText) (t : Table Position) (p : Position)
    → IsSaved (positions N) t
    → IsSaved (positions N) (save_position N t p)
unfolding save_position wall.Storage.save_position
save_position-IsSaved N t p h =
    saved-IsSaved (positions N) _ (stored-IsKeyedBy (positions N) t.rows p h.keyed)

save_balance-IsSaved :
    (N : DoubleText) (t : Table BalanceSnapshot) (b : BalanceSnapshot)
    → IsSaved (balances N) t
    → IsSaved (balances N) (save_balance N t b)
unfolding save_balance wall.Storage.save_balance
save_balance-IsSaved N t b h =
    saved-IsSaved (balances N) _ (stored-IsKeyedBy (balances N) t.rows b h.keyed)

-- The position repository after saves on a new one, and that every position of it can be written.
abbrev pub positions_after : DoubleText → List Position → Table Position
positions_after N ps = foldl (save_position N) no_table ps

abbrev pub PositionsWritable : DoubleText → Table Position → Type 0
PositionsWritable N t =
    (id : String) (p : Position) → get_position t id ≡ some p → WritablePosition N p

-- After any saves on a position repository in an empty directory, one that is opened on the file
-- that it left finds each position as it stood: if the texts of the positions hold no tab and no line end,
-- and their numbers come back from the digits that are written of them.
pub open_positions-save_position :
    (N : DoubleText) (ps : List Position)
    → IsNumeric N
    → PositionsWritable N (positions_after N ps)
    → (t' : Table Position) × (open_positions N (positions_after N ps).file ≡ some t')
      × ((id : String) → get_position t' id ≡ get_position (positions_after N ps) id)
unfolding open_positions get_position
open_positions-save_position N ps n w =
    open_table-IsSaved (positions N) (positions_after N ps)
      (calls-IsSaved (positions N) (save_position N) (save_position-IsSaved N) ps)
      (λ id p e. WritablePosition-Storable N p n (w id p e))

abbrev pub balances_after : DoubleText → List BalanceSnapshot → Table BalanceSnapshot
balances_after N bs = foldl (save_balance N) no_table bs

abbrev pub BalancesWritable : DoubleText → Table BalanceSnapshot → Type 0
BalancesWritable N t =
    (asset : String) (b : BalanceSnapshot) → get_balance t asset ≡ some b → WritableBalance N b

-- After any saves on a balance repository in an empty directory, one that is opened on the file that
-- it left finds each balance as it stood: if the assets hold no tab and no line end, and the
-- numbers come back from the seventeen digits that are written of them.
pub open_balances-save_balance :
    (N : DoubleText) (bs : List BalanceSnapshot)
    → IsNumeric N
    → BalancesWritable N (balances_after N bs)
    → (t' : Table BalanceSnapshot) × (open_balances N (balances_after N bs).file ≡ some t')
      × ((asset : String) → get_balance t' asset ≡ get_balance (balances_after N bs) asset)
unfolding open_balances get_balance
open_balances-save_balance N bs n w =
    open_table-IsSaved (balances N) (balances_after N bs)
      (calls-IsSaved (balances N) (save_balance N) (save_balance-IsSaved N) bs)
      (λ asset b e. WritableBalance-Storable N b n (w asset b e))
