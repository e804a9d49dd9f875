-- ===== src/Agentx/Table/Clear.antt =====
-- `Table.clear` of lib/snmpy/agentx.py empties a table.
use snmpy.Shared.{
  ℕ, ◌≡◌, refl, sym, ap, ◌∙◌, List, [], ◌∷◌, Option, none, some, length, ok, All, head?, subst,
}
use snmpy.Shared.Int.{pos}
use snmpy.Shared.Values.{int}
use snmpy.Agentx.Asn.{bits, Watcher, set_value}
use snmpy.Agentx.Asn.Laws.{set_value-bits}
use snmpy.Agentx.NetSnmp.{NetSnmp, IsNetSnmp}
use snmpy.Agentx.Table.{Table, clear_rows, clear}
use snmpy.Agentx.Table.Laws.{IsAt, UpTo}

module _ (n : NetSnmp) (laws : IsNetSnmp n) where
  -- The loop ends by the null pointer, with every row deleted, in one round for each row.
  rows-clear_rows :
      (rs : List n.Row) (it : Option n.Row) (d : n.DataSet)
      → n.rows d ≡ rs
      → it ≡ head? rs
      → n.rows (clear_rows n (length rs) it d) ≡ []
  unfolding clear_rows
  rows-clear_rows [] it d e at = e
  rows-clear_rows (r ∷ rs) none d e at = cc
  rows-clear_rows (r ∷ rs) (some q) d e at =
      let same : q ≡ r = cc in
      let e' : n.rows d ≡ q ∷ rs = e ∙ ap (λ x. x ∷ rs) (sym same) in
      rows-clear_rows rs (n.next_row q d) (n.remove_and_delete_row q d)
        (laws.first_removed q rs d e') (laws.next_of_first q rs d e')

  pub clear_lem :
      (t : Table n) (b : ℕ) (w : Option Watcher)
      → t.index ≡ record { body = bits b; watcher = w }
      → (t' : Table n) × (clear n t ≡ (ok tt, t'))
        × (t'.types ≡ t.types)
        × IsAt n t' 0
        × (n.rows t'.table ≡ [])
  unfolding clear
  clear_lem t b w e =
      let (w', indexed) = set_value-bits (pos 0) b w in
      let emptied =
        rows-clear_rows (n.rows t.table) (n.first_row t.table) t.table refl (laws.first t.table) in
      (
        record {
          types = t.types;
          index = record { body = bits 0; watcher = w' };
          table = clear_rows n (length (n.rows t.table)) (n.first_row t.table) t.table;
        },
        rw (ap (set_value (int (pos 0))) e ∙ indexed, clear) refl,
        refl,
        record { watcher = w'; index = refl; below = subst (All (UpTo n 0)) (sym emptied) tt },
        emptied,
      )
