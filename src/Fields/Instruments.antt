-- ===== src/Fields/Instruments.antt =====
-- The seven fields of an instrument, as the files and the event log write them.
use wall.Core.{Double, Instrument}
use wall.Fields.{◌>>=◌}
use wall.Fields.Doubles.{AllNumeral-IsField, DoubleText, IsNumeric, Survives, stod, stod-Survives}
use wall.Fields.Laws.{IsField}
use wall.Prelude.{All, List, Option, String, [], refl, some, ◌++◌, ◌∷◌, ◌≡◌, ◌⊳◌}

unfoldable pub instrument_fields : DoubleText → Instrument → List String
instrument_fields N i =
    i.instrument_id
    ∷ i.exchange
    ∷ i.symbol
    ∷ i.base_asset
    ∷ i.quote_asset
    ∷ N.shown i.tick_size
    ∷ N.shown i.lot_size
    ∷ []

unfoldable pub instrument_of :
    DoubleText → String → String → String → String → String → String → String → Option Instrument
unfolding stod
instrument_of N id exchange symbol base quote tick lot = do
  t ← stod N tick
  l ← stod N lot
  some (record {
    instrument_id = id;
    exchange = exchange;
    symbol = symbol;
    base_asset = base;
    quote_asset = quote;
    tick_size = t;
    lot_size = l;
  })

-- The texts hold no separator, and the sizes are read back from what is shown of them.
pub record WritableInstrument (N : DoubleText) (i : Instrument) : Type 0 where
  pub id_field : IsField i.instrument_id
  pub exchange_field : IsField i.exchange
  pub symbol_field : IsField i.symbol
  pub base_field : IsField i.base_asset
  pub quote_field : IsField i.quote_asset
  pub tick_survives : Survives N N.shown i.tick_size
  pub lot_survives : Survives N N.shown i.lot_size

pub instrument_of-fields :
    (N : DoubleText) (i : Instrument)
    → WritableInstrument N i
    → instrument_of N i.instrument_id i.exchange i.symbol i.base_asset i.quote_asset
        (N.shown i.tick_size)
        (N.shown i.lot_size)
      ≡ some i
unfolding instrument_of
instrument_of-fields N i w =
    rw
      (
        stod-Survives N N.shown i.tick_size w.tick_survives,
        stod-Survives N N.shown i.lot_size w.lot_survives,
      )
      refl

pub shown-IsField : (N : DoubleText) → IsNumeric N → (d : Double) → IsField (N.shown d)
shown-IsField N n d = AllNumeral-IsField (N.shown d) (n.shown_numeral d)

pub shown17-IsField : (N : DoubleText) → IsNumeric N → (d : Double) → IsField (N.shown17 d)
shown17-IsField N n d = AllNumeral-IsField (N.shown17 d) (n.shown17_numeral d)

pub instrument_fields-IsField :
    (N : DoubleText) (i : Instrument) (ss : List String)
    → IsNumeric N
    → WritableInstrument N i
    → All IsField ss
    → All IsField (instrument_fields N i ++ ss)
unfolding instrument_fields
instrument_fields-IsField N i ss n w h =
    w.id_field
    ⊳ w.exchange_field
    ⊳ w.symbol_field
    ⊳ w.base_field
    ⊳ w.quote_field
    ⊳ shown-IsField N n i.tick_size
    ⊳ shown-IsField N n i.lot_size
    ⊳ h
