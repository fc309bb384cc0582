-- ===== src/Exec/Journal.antt =====
-- include/exec/journal.hpp: the bounded journal of the execution layer and its rolling digest.
use market_microstructure_en.Base.{
  ℕ, zero, suc, ◌+◌, ◌^◌, Bool, true, false, ◌&&◌, ◌==◌, leb, if◌then◌else◌, List, [], ◌∷◌, ◌++◌,
  length,
}
use market_microstructure_en.Base.Int.{ℤ, pos, ◌==ℤ◌}
use market_microstructure_en.Base.Words.{to_u64}
use market_microstructure_en.Exec.Types.{fnv_offset, fnv_bytes}
pub mod Dense

pub data JournalRecordType : Type 0 where
  command acknowledgement rejection fill cancel replace order_state : JournalRecordType
  position_update pnl_update account_update : JournalRecordType

abbrev pub type_code : JournalRecordType → ℕ
type_code command = 1
type_code acknowledgement = 2
type_code rejection = 3
type_code fill = 4
type_code cancel = 5
type_code replace = 6
type_code order_state = 7
type_code position_update = 8
type_code pnl_update = 9
type_code account_update = 10

pub record JournalRecord : Type 0 where
  pub seq : ℕ
  pub ts_ns : ℕ
  pub type : ℕ
  pub reserved : ℕ
  pub symbol_id : ℕ
  pub run_id : ℕ
  pub logical_order_id : ℕ
  pub position_ticket : ℕ
  pub a : ℤ
  pub b : ℤ
  pub c : ℤ
  pub d : ℤ

abbrev pub max_journal_records : ℕ
max_journal_records = 2 ^ 14

-- `records_[0, count_)` in the order of emission.
pub record Journal : Type 0 where
  pub records : List JournalRecord
  pub digest : ℕ
  pub overflowed : Bool

abbrev pub empty_journal : Journal
empty_journal = record { records = []; digest = fnv_offset; overflowed = false }

-- `mix_bytes`: the record's 80 bytes, each member with its lowest byte first.
unfoldable pub mix_bytes : ℕ → JournalRecord → ℕ
mix_bytes digest r =
    let h1 = fnv_bytes 8 (fnv_bytes 8 digest r.seq) r.ts_ns in
    let h2 = fnv_bytes 4 (fnv_bytes 2 (fnv_bytes 2 h1 r.type) r.reserved) r.symbol_id in
    let h3 =
      fnv_bytes 8 (fnv_bytes 8 (fnv_bytes 8 h2 r.run_id) r.logical_order_id) r.position_ticket in
    fnv_bytes 8 (fnv_bytes 8 (fnv_bytes 8 (fnv_bytes 8 h3 (to_u64 r.a)) (to_u64 r.b)) (to_u64 r.c))
      (to_u64 r.d)

unfoldable pub append : Journal → JournalRecord → Bool × Journal
append j r =
    let r' = record r { seq = length j.records } in
    if leb max_journal_records (length j.records)
    then (false, record j { overflowed = true })
    else (true, record j { records = j.records ++ (r' ∷ []); digest = mix_bytes j.digest r' })

-- `emit`, by the record that it fills in.
unfoldable pub emit :
    Journal → JournalRecordType → ℕ → ℕ → ℕ → ℕ → ℕ → ℤ → ℤ → ℤ → ℤ → Bool × Journal
emit j type ts_ns run_id logical_order_id symbol_id position_ticket a b c d = append j (record {
  seq = 0;
  ts_ns = ts_ns;
  type = type_code type;
  reserved = 0;
  symbol_id = symbol_id;
  run_id = run_id;
  logical_order_id = logical_order_id;
  position_ticket = position_ticket;
  a = a;
  b = b;
  c = c;
  d = d;
})

unfoldable pub same_record : JournalRecord → JournalRecord → Bool
same_record x y =
    (x.seq == y.seq)
    && (x.ts_ns == y.ts_ns)
    && (x.type == y.type)
    && (x.reserved == y.reserved)
    && (x.symbol_id == y.symbol_id)
    && (x.run_id == y.run_id)
    && (x.logical_order_id == y.logical_order_id)
    && (x.position_ticket == y.position_ticket)
    && (x.a ==ℤ y.a)
    && (x.b ==ℤ y.b)
    && (x.c ==ℤ y.c)
    && (x.d ==ℤ y.d)

-- `std::memcmp` of the records.
unfoldable pub same_records : List JournalRecord → List JournalRecord → Bool
unfolding same_record
same_records [] [] = true
same_records (x ∷ xs) (y ∷ ys) = same_record x y && same_records xs ys
same_records [] (y ∷ ys) = false
same_records (x ∷ xs) [] = false

unfoldable pub identical_to : Journal → Journal → Bool
unfolding same_records
identical_to j k =
    (length j.records == length k.records)
    && (j.digest == k.digest)
    && same_records j.records k.records
