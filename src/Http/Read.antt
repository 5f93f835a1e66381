-- ===== src/Http/Read.antt =====
-- src/reactor/http.c: requests are read. The request's bytes are the start of a list, which goes on
-- with what lies behind them in memory; a region is an offset and a size. `none` is an access
-- outside of the list, or a loop that needs more fuel.
mod Numbers
use libreactor_refactor.Prelude.{
  ◌>>=◌, ℕ, zero, suc, ◌+◌, ◌-◌, ◌*◌, ◌%◌, Bool, true, false, not, ◌&&◌, ◌||◌, Option, none, some,
  List, [], ◌∷◌, ◌++◌, length, take, drop, leb, ltb, ◌==◌, if◌then◌else◌, codes,
}
use libreactor_refactor.Words.{sub64, word, word32}
use libreactor_refactor.Data.{data_equal, data_equal_case}
unfoldable pub use Numbers.*

pub record Region : Type 0 where
  pub start : ℕ
  pub size : ℕ

-- The bytes of a region.
unfoldable pub bytes_of : List ℕ → Region → List ℕ
bytes_of m r = take r.size (drop r.start m)

-- A result of 0 is with no chunk.
unfoldable pub http_chunk : List ℕ → Region → Option (ℕ × Option Region)
unfolding bytes_of strtoull memchr
http_chunk m input =
    if leb (input.start + input.size) (length m)
    then elim (memchr 10 (bytes_of m input)) [
      | none ↦ some (0, none)
      | some end ↦ do
        chunk_size ← strtoull 16 (drop input.start m)
        let n = (end + 1 + chunk_size + 2) % word
        let chunk : Region = record { start = input.start + end + 1; size = chunk_size }
        if ltb input.size n then some (0, none) else some (n, some chunk)
    ]
    else none

unfoldable pub offset_by : Region → ℕ → Region
unfolding sub64
offset_by d size = record { start = d.start + size; size = sub64 d.size size }

-- The first loop of `http_dechunk`, of so many rounds: whether the chunks are complete.
unfoldable pub scan_chunks : ℕ → List ℕ → Region → Option Bool
unfolding http_chunk offset_by
scan_chunks zero m input = none
scan_chunks (suc fuel) m input = http_chunk m input >>= λ (n, chunk). elim chunk [
  | none ↦ some false
  | some c ↦
      let rest = scan_chunks fuel m (offset_by input n) in
      if n == 0 then some false else if c.size == 0 then some true else rest
]

unfoldable pub move_bytes : List ℕ → ℕ → Region → Option (List ℕ)
move_bytes m to r =
    if leb (r.start + r.size) (length m) && leb (to + r.size) (length m)
    then some (take to m ++ (take r.size (drop r.start m) ++ drop (to + r.size) m))
    else none

-- The second loop: the chunks are moved behind the bytes `done`, and the bytes they took are counted.
unfoldable pub join_chunks : ℕ → List ℕ → Region → Region → ℕ → Option (List ℕ × Region × ℕ)
unfolding http_chunk offset_by move_bytes
join_chunks zero m input done offset = none
join_chunks (suc fuel) m input done offset = http_chunk m input >>= λ (n, chunk). elim chunk [
  | none ↦ none
  | some c ↦ move_bytes m (done.start + done.size) c >>= λ moved.
      let longer : Region = record { start = done.start; size = done.size + c.size } in
      let rest = join_chunks fuel moved (offset_by input n) longer (offset + n) in
      if c.size == 0 then some (moved, longer, offset + n) else rest
]

pub record Dechunked : Type 0 where
  pub memory : List ℕ
  pub body : Option Region
  pub offset : ℕ

-- The offset is 0 and the body is left alone where a chunk is incomplete. A round takes at least one
-- byte.
unfoldable pub http_dechunk : List ℕ → Region → Option Dechunked
unfolding scan_chunks join_chunks
http_dechunk m input = do
  complete ← scan_chunks (suc input.size) m input
  let joined = (do
    (moved, body, offset) ←
        join_chunks (suc input.size) m input (record { start = input.start; size = 0 }) 0
    some (record { memory = moved; body = some body; offset = offset }))
  if complete then joined else some (record { memory = m; body = none; offset = 0 })

pub record Field : Type 0 where
  pub name : Region
  pub value : Region

-- The value of the first field of the name; `null_region` is `data_null`.
abbrev pub null_region : Region
null_region = record { start = 0; size = 0 }

unfoldable pub http_field_lookup : List ℕ → List Field → ℕ → List ℕ → Option Region
unfolding bytes_of data_equal_case
http_field_lookup m fields zero name = some null_region
http_field_lookup m [] (suc fields_count) name = none
http_field_lookup m (field ∷ fields) (suc fields_count) name =
    let rest = http_field_lookup m fields fields_count name in
    if data_equal_case (bytes_of m field.name) name then some field.value else rest

-- What `phr_parse_request` of the bytes returns and sets; `result` is an `int` as its 32 bits.
pub record Parsed : Type 0 where
  pub result : ℕ
  pub method : Region
  pub target : Region
  pub fields : List Field
  pub fields_count : ℕ

abbrev pub Parser : Type 0
Parser = List ℕ → ℕ → Parsed

-- What `http_read_request` returns, as the 32 bits of an `int`, and the body if it is set.
pub record ReadRequest : Type 0 where
  pub result : ℕ
  pub parsed : Parsed
  pub memory : List ℕ
  pub body : Option Region

abbrev pub incomplete : ℕ
incomplete = 4294967294

abbrev pub invalid : ℕ
invalid = 4294967295

-- A request with a content length.
unfoldable pub read_length : List ℕ → ℕ → Parsed → Region → Option ReadRequest
unfolding strtoull
read_length m size p value = do
  body ← strtoull 10 (drop value.start m)
  let region : Region = record { start = p.result; size = body }
  if ltb size ((p.result + body) % word)
      then some (record { result = incomplete; parsed = p; memory = m; body = none })
      else some (record {
        result = (p.result + body) % word32;
        parsed = p;
        memory = m;
        body = some region;
      })

-- A request in chunks.
unfoldable pub read_chunks : List ℕ → ℕ → Parsed → Option ReadRequest
unfolding http_dechunk offset_by
read_chunks m size p = do
  d ← http_dechunk m (offset_by (record { start = 0; size = size }) p.result)
  if d.offset == 0
      then some (record { result = incomplete; parsed = p; memory = d.memory; body = d.body })
      else some (record {
        result = (p.result + d.offset) % word32;
        parsed = p;
        memory = d.memory;
        body = d.body;
      })

-- `http_read_request` of the first `size` bytes, with room for so many fields; `parse` is
-- `phr_parse_request`.
unfoldable pub http_read_request : Parser → List ℕ → ℕ → ℕ → Option ReadRequest
unfolding bytes_of data_equal data_equal_case http_field_lookup read_length read_chunks
http_read_request parse m size fields_count = do
  let p = parse (take size m) fields_count
  let refused : ReadRequest = record { result = invalid; parsed = p; memory = m; body = none }
  let with_body = (do
    encoding ← http_field_lookup m p.fields p.fields_count (codes "Transfer-Encoding")
    value ← http_field_lookup m p.fields p.fields_count (codes "Content-Length")
    let sized = read_length m size p value
    let chunked = read_chunks m size p
    if not (value.size == 0)
        then (if not (encoding.size == 0) then some refused else sized)
        else if not (encoding.size == 0)
        then (if data_equal_case (bytes_of m encoding) (codes "Chunked")
            then chunked
            else some refused)
        else some refused)
  if data_equal (bytes_of m p.method) (codes "GET") || leb 2147483648 p.result
      then some (record { result = p.result; parsed = p; memory = m; body = none })
      else with_body
