-- ===== src/Agentx/Table/Laws.antt =====
-- What net-snmp serves of a `Table` after `clear` and `append` (lib/snmpy/agentx.py).
use snmpy.Shared.{
  ℕ, suc, ◌+◌, ◌^◌, ◌<◌, ◌≤◌, ◌≡◌, refl, sym, ap, ◌∙◌, List, [], ◌∷◌, ◌++◌, Option, some, length,
  ok, ok_of_bind, ok-injective, arith, All, All-append, subst,
}
use snmpy.Shared.Int.{pos}
use snmpy.Shared.Values.{Value, null, int, str}
use snmpy.Agentx.Asn.{Asn, Watcher, bits, get_value, set_value}
use snmpy.Agentx.Asn.Laws.{
  octet_string_ok, counter64_ok, integer32_ok, set_value-bits, get_value-bits,
}
use snmpy.Agentx.NetSnmp.{NetSnmp, IsNetSnmp, Precedes, cell_of}
use snmpy.Agentx.Table.{
  AsnClass, octet_string_class, counter64_class, integer32_class, construct, Table, next_index,
  fill_row, split_row, finish_row, append,
}

-- A value of the Python type that the class of its column takes.
abbrev pub Fits : AsnClass → Value → Type 0
Fits octet_string_class (str s) = Unit
Fits counter64_class (int z) = Unit
Fits integer32_class (int z) = Unit
Fits _ _ = ⊥

-- One value for each column, each of its column's type.
abbrev pub FitsRow : List AsnClass → List Value → Type 0
FitsRow [] [] = Unit
FitsRow (k ∷ ks) (v ∷ vs) = Fits k v × FitsRow ks vs
FitsRow _ _ = ⊥

pub FitsRow-length : (ks : List AsnClass) (vs : List Value) → FitsRow ks vs → length vs ≡ length ks
FitsRow-length [] [] h = refl
FitsRow-length (k ∷ ks) (v ∷ vs) h = ap suc (FitsRow-length ks vs h.1)
FitsRow-length [] (v ∷ vs) h = absurd h
FitsRow-length (k ∷ ks) [] h = absurd h

pub construct_ok : (k : AsnClass) (v : Value) → Fits k v → (a : Asn) × (construct k v ≡ ok a)
construct_ok octet_string_class (str s) h = octet_string_ok s
construct_ok counter64_class (int z) h = counter64_ok z
construct_ok integer32_class (int z) h = integer32_ok z
construct_ok octet_string_class null h = absurd h
construct_ok octet_string_class (int z) h = absurd h
construct_ok counter64_class null h = absurd h
construct_ok counter64_class (str s) h = absurd h
construct_ok integer32_class null h = absurd h
construct_ok integer32_class (str s) h = absurd h

module _ (n : NetSnmp) where
  open n use {DataSet, Row, rows, indexes, column, set_row_column}

  -- From column `c + 1` on, the row holds what the column classes make of the values.
  abbrev pub Renders : List AsnClass → ℕ → List Value → Row → Type 0
  Renders [] c [] r = Unit
  Renders (k ∷ ks) c (v ∷ vs) r =
      ((a : Asn) × (construct k v ≡ ok a) × (column r (c + 1) ≡ some (cell_of a.body)))
      × Renders ks (c + 1) vs r
  Renders _ _ _ _ = ⊥

  -- The row has the number `i` for its index and holds the values.
  abbrev pub Serves : List AsnClass → ℕ → List Value → Row → Type 0
  Serves ks i vs r = (indexes r ≡ cell_of (bits i) ∷ []) × Renders ks 0 vs r

  -- The served rows are the given ones, in their order, with indexes from `i + 1` on.
  abbrev pub ServesAll : List AsnClass → ℕ → List (List Value) → List Row → Type 0
  ServesAll ks i [] [] = Unit
  ServesAll ks i (vs ∷ vss) (r ∷ rs) = Serves ks (i + 1) vs r × ServesAll ks (i + 1) vss rs
  ServesAll _ _ _ _ = ⊥

  -- The row has one number for its index, `k` at most.
  abbrev pub UpTo : ℕ → Row → Type 0
  UpTo k q = (i : ℕ) × (indexes q ≡ cell_of (bits i) ∷ []) × (i ≤ k)

  -- The last index given is `k`.
  pub record IsAt (t : Table n) (k : ℕ) : Type 0 where
    pub watcher : Option Watcher
    pub index : t.index ≡ record { body = bits k; watcher = watcher }
    pub below : All (UpTo k) (rows t.table)

  module _ (laws : IsNetSnmp n) where
    -- Filling the later columns keeps an earlier one, and the index.
    fill_row-column :
        (ks : List AsnClass) (c : ℕ) (vs : List Value) (r r' : Row) (j : ℕ)
        → fill_row n ks c vs r ≡ ok r'
        → j < c + 1
        → column r' j ≡ column r j
    unfolding fill_row
    fill_row-column ks c [] r r' j e h = ap (λ s. column s j) (sym (ok-injective e))
    fill_row-column [] c (v ∷ vs) r r' j e h = cc
    fill_row-column (k ∷ ks) c (v ∷ vs) r r' j e h =
        let (a, made, filled) = ok_of_bind (construct k v) _ e in
        fill_row-column ks (c + 1) vs (set_row_column (c + 1) (cell_of a.body) r) r' j filled
          (omega arith)
        ∙ (laws.column_set (c + 1) j (cell_of a.body) r ∙ ground arith)

    fill_row_lem :
        (ks : List AsnClass) (c : ℕ) (vs : List Value) (r : Row)
        → FitsRow ks vs
        → (r' : Row) × (fill_row n ks c vs r ≡ ok r')
          × Renders ks c vs r'
          × (indexes r' ≡ indexes r)
    unfolding fill_row
    fill_row_lem [] c [] r h = (r, refl, tt, refl)
    fill_row_lem (k ∷ ks) c (v ∷ vs) r h =
        let (a, made) = construct_ok k v h.0 in
        let r1 = set_row_column (c + 1) (cell_of a.body) r in
        let (r', filled, rest, same) = fill_row_lem ks (c + 1) vs r1 h.1 in
        (
          r',
          rw made filled,
          (
            (
              a,
              made,
              fill_row-column ks (c + 1) vs r1 r' (c + 1) filled (omega arith)
                  ∙ (laws.column_set (c + 1) (c + 1) (cell_of a.body) r ∙ ground arith),
            ),
            rest,
          ),
          same ∙ laws.index_kept _ _ _,
        )
    fill_row_lem [] c (v ∷ vs) r h = absurd h
    fill_row_lem (k ∷ ks) c [] r h = absurd h

    All-UpTo_suc : (k : ℕ) (rs : List Row) → All (UpTo k) rs → All (UpTo (k + 1)) rs
    All-UpTo_suc k [] h = tt
    All-UpTo_suc k (r ∷ rs) ((i, e, le), h) = ((i, e, omega arith), All-UpTo_suc k rs h)

    All-Precedes :
        (k : ℕ) (r : Row) (rs : List Row)
        → indexes r ≡ cell_of (bits (k + 1)) ∷ []
        → k + 1 < 2 ^ 31
        → All (UpTo k) rs
        → All (λ q. Precedes n q r) rs
    All-Precedes k r [] e lt h = tt
    All-Precedes k r (q ∷ rs) e lt ((i, at, le), h) = (
      record {
        before = i;
        after = k + 1;
        at_before = at;
        at_after = e;
        in_order = omega arith;
        in_range = lt;
      },
      All-Precedes k r rs e lt h,
    )

    next_index_lem :
        (t : Table n) (k : ℕ)
        → IsAt t k
        → k + 1 < 2 ^ 31
        → next_index (get_value t.index.body) ≡ ok (int (pos (k + 1)))
    unfolding next_index
    next_index_lem t k at lt =
        rw (ap (λ (a : Asn). get_value a.body) at.index, get_value-bits k (omega arith))
          (ground arith)

    set_value-index :
        (t : Table n) (k j : ℕ)
        → IsAt t k
        → j < 2 ^ 31
        → (w : Option Watcher) × (set_value (int (pos j)) t.index
            ≡ ok (record { body = bits j; watcher = w }))
    set_value-index t k j at lt =
        let (w, e) = set_value-bits (pos j) k at.watcher in
        (
          w,
          ap (set_value (int (pos j))) at.index
              ∙ e
              ∙ ap (λ b. ok (record { body = bits b; watcher = w })) (omega arith),
        )

    split_row_lem :
        (t : Table n) (k : ℕ) (vs : List Value)
        → IsAt t k
        → k + 1 < 2 ^ 31
        → FitsRow t.types vs
        → split_row n t vs ≡ ok (int (pos (k + 1)), vs)
    unfolding split_row
    split_row_lem t k [] at lt h = rw (next_index_lem t k at lt)
    split_row_lem t k (v ∷ vs) at lt h =
        rw (next_index_lem t k at lt) (ground (arith, FitsRow-length t.types (v ∷ vs) h))

    finish_row_lem :
        (t : Table n) (k : ℕ) (w : Option Watcher) (vs : List Value)
        → All (UpTo k) (rows t.table)
        → t.index ≡ record { body = bits (k + 1); watcher = w }
        → k + 1 < 2 ^ 31
        → FitsRow t.types vs
        → (t' : Table n) × (r : Row) × (finish_row n vs t ≡ (ok tt, t'))
          × (t'.types ≡ t.types)
          × IsAt t' (k + 1)
          × (rows t'.table ≡ rows t.table ++ r ∷ [])
          × Serves t.types (k + 1) vs r
    unfolding finish_row
    finish_row_lem t k w vs below at lt h =
        let row =
          n.varlist_add_variable (cell_of t.index.body) (n.create_row_from_defaults t.table) in
        let (r, filled, shown, same) = fill_row_lem t.types 0 vs row h in
        let numbered : indexes r ≡ cell_of (bits (k + 1)) ∷ [] =
          same
          ∙ laws.index_added _ _
          ∙ ap (λ l. l ++ cell_of t.index.body ∷ []) (laws.fresh t.table)
          ∙ ap (λ (a : Asn). cell_of a.body ∷ []) at in
        let added = laws.added_last r t.table (All-Precedes k r (rows t.table) numbered lt below) in
        (
          record t { table = n.add_row r t.table },
          r,
          rw (filled, finish_row) refl,
          refl,
          record {
            watcher = w;
            index = at;
            below = subst (All (UpTo (k + 1))) (sym added) (
                All-append (UpTo (k + 1)) (rows t.table) (r ∷ [])
                  (All-UpTo_suc k (rows t.table) below) ((k + 1, numbered, omega arith), tt));
          },
          added,
          (numbered, shown),
        )

    pub append_lem :
        (t : Table n) (k : ℕ) (vs : List Value)
        → IsAt t k
        → k + 1 < 2 ^ 31
        → FitsRow t.types vs
        → (t' : Table n) × (r : Row) × (append n vs t ≡ (ok tt, t'))
          × (t'.types ≡ t.types)
          × IsAt t' (k + 1)
          × (rows t'.table ≡ rows t.table ++ r ∷ [])
          × Serves t.types (k + 1) vs r
    unfolding append
    append_lem t k vs at lt h =
        let (w, indexed) = set_value-index t k (k + 1) at lt in
        rw (split_row_lem t k vs at lt h, indexed, append)
          (finish_row_lem (record t { index = record { body = bits (k + 1); watcher = w } }) k w vs
            at.below refl lt h)
