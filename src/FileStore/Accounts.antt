-- ===== src/FileStore/Accounts.antt =====
-- `PostgresPositionRepository` and `PostgresBalanceRepository` of
-- src/infrastructure/postgres_repositories.cpp.
pub mod Restart
use wall.Storage.{save_position as position_saved, save_balance as balance_saved}
use wall.Core.{BalanceSnapshot, Position}
use wall.Fields.{◌>>=◌}
use wall.Fields.Doubles.{DoubleText, stod}
use wall.Fields.Instruments.{instrument_fields, instrument_of}
use wall.FileStore.{File, Format, Table, open_table, saved}
use wall.Prelude.{List, Option, String, [], none, some, ◌++◌, ◌∷◌}
use wall.Prelude.Dict.{lookup, values}

unfoldable pub position_fields : DoubleText → Position → List String
unfolding instrument_fields
position_fields N p =
    p.position_id
    ∷ (instrument_fields N p.instrument
        ++ (N.shown p.net_quantity
            ∷ N.shown p.average_entry_price
            ∷ N.shown p.realized_pnl
            ∷ N.shown p.unrealized_pnl
            ∷ []))

-- The body of the loop of `load`, on a line of twelve fields.
unfoldable pub position_of : DoubleText → List String → Option Position
unfolding stod instrument_of
position_of N
      (id ∷ instrument ∷ exchange ∷ symbol ∷ base ∷ quote ∷ tick ∷ lot ∷ net ∷ average ∷ realized
        ∷ unrealized ∷ []) =
    do
      i ← instrument_of N instrument exchange symbol base quote tick lot
      n ← stod N net
      a ← stod N average
      r ← stod N realized
      u ← stod N unrealized
      some (record {
        position_id = id;
        instrument = i;
        net_quantity = n;
        average_entry_price = a;
        realized_pnl = r;
        unrealized_pnl = u;
      })
position_of N _ = none

abbrev pub positions : DoubleText → Format Position
positions N = record {
  width = 12;
  record_of = position_of N;
  fields_of = position_fields N;
  key = λ (p : Position). p.instrument.instrument_id;
}

unfoldable pub open_positions : DoubleText → File → Option (Table Position)
unfolding open_table
open_positions N file = open_table (positions N) file

unfoldable pub save_position : DoubleText → Table Position → Position → Table Position
save_position N t p = saved (positions N) (position_saved t.rows p)

unfoldable pub get_position : Table Position → String → Option Position
get_position t id = lookup id t.rows

unfoldable pub all_positions : Table Position → List Position
all_positions t = values t.rows

unfoldable pub balance_fields : DoubleText → BalanceSnapshot → List String
balance_fields N b = b.asset ∷ N.shown17 b.total_balance ∷ N.shown17 b.available_balance ∷ []

-- The body of the loop of `load`, on a line of three fields.
unfoldable pub balance_of : DoubleText → List String → Option BalanceSnapshot
unfolding stod
balance_of N (asset ∷ total ∷ available ∷ []) = do
  t ← stod N total
  a ← stod N available
  some (record { asset = asset; total_balance = t; available_balance = a })
balance_of N _ = none

abbrev pub balances : DoubleText → Format BalanceSnapshot
balances N = record {
  width = 3;
  record_of = balance_of N;
  fields_of = balance_fields N;
  key = λ (b : BalanceSnapshot). b.asset;
}

unfoldable pub open_balances : DoubleText → File → Option (Table BalanceSnapshot)
unfolding open_table
open_balances N file = open_table (balances N) file

unfoldable pub save_balance :
    DoubleText → Table BalanceSnapshot → BalanceSnapshot → Table BalanceSnapshot
save_balance N t b = saved (balances N) (balance_saved t.rows b)

unfoldable pub get_balance : Table BalanceSnapshot → String → Option BalanceSnapshot
get_balance t asset = lookup asset t.rows

unfoldable pub all_balances : Table BalanceSnapshot → List BalanceSnapshot
all_balances t = values t.rows
