-- ===== src/Http/Push.antt =====
-- src/reactor/http.c: the writes of `http_write_response`, in a block that has the room for them.
use libreactor_refactor.Prelude.{
  ◌>>=◌, ℕ, ◌+◌, ◌-◌, ◌≤◌, true, false, Option, some, [], ◌∷◌, ◌++◌, length, ◌==◌, if◌then◌else◌,
  codes, ◌≡◌, refl, sym, ap, ◌∙◌, arith, append_assoc, append-nil, length-append,
}
use native.Mathlib.Decide.{ℕ_discrete}
use libreactor_refactor.Memory.{Memory, store}
use libreactor_refactor.Memory.Blocks.{front, store-pieces}
use libreactor_refactor.Http.Write.{
  Cursor, cells, utility_move, utility_push_data, utility_push_byte, http_field_define,
  http_push_field, push_response,
}

-- A run that wrote `done` at the start of a block, before `room` bytes that are free for it.
pub record At (run : Option Cursor) (done : Memory) (room : ℕ) (rest : Memory) : Type 0 where
  pub gap : Memory
  pub width : length gap ≡ room
  pub ends : run ≡ some (done ++ (gap ++ rest), length done)

push-At :
    (o : Option Cursor) (done x rest : Memory) (room : ℕ)
    → At o done room rest
    → length x ≤ room
    → At (o >>= utility_push_data x) (done ++ x) (room - length x) rest
unfolding utility_push_data utility_move
push-At o done x rest room at fits =
    let (y, z, split, ylen) = front at.gap (length x) (omega (arith, at.width)) in
    let stored : store (done ++ (at.gap ++ rest)) (length done) x
        ≡ some ((done ++ x) ++ (z ++ rest)) =
      ap (λ (l : Memory). store (done ++ l) (length done) x)
        (ap (λ (l : Memory). l ++ rest) split ∙ append_assoc y z rest)
      ∙ store-pieces done y (z ++ rest) x ylen
      ∙ ap some (sym (append_assoc done x (z ++ rest))) in
    record {
      gap = z;
      width = omega (arith, ap length split, length-append y z, ylen, at.width);
      ends =
          rw (at.ends, stored)
            (ap (λ (p : ℕ). some ((done ++ x) ++ (z ++ rest), p)) (sym (length-append done x)));
    }

byte-At :
    (o : Option Cursor) (done rest : Memory) (room c : ℕ)
    → At o done room rest
    → 1 ≤ room
    → At (o >>= utility_push_byte c) (done ++ (some c ∷ [])) (room - 1) rest
unfolding utility_push_byte utility_push_data utility_move
byte-At o done rest room c at fits = push-At o done (some c ∷ []) rest room at fits

-- A header field as text.
abbrev pub field_text : Memory → Memory → Memory
field_text name value = name ++ (cells (codes ": ") ++ (value ++ cells (codes "\r\n")))

At-as :
    (o o' : Option Cursor) (done done' rest : Memory) (room room' : ℕ)
    → At o done room rest
    → o' ≡ o
    → done ≡ done'
    → room ≡ room'
    → At o' done' room' rest
At-as o o' done done' rest room room' at run text left = record {
  gap = at.gap;
  width = at.width ∙ left;
  ends = run ∙ at.ends ∙ ap (λ (l : Memory). some (l ++ (at.gap ++ rest), length l)) text;
}

join-field :
    (done name value : Memory)
    → ((((((done ++ name) ++ (some 58 ∷ [])) ++ (some 32 ∷ [])) ++ value) ++ (some 13 ∷ []))
        ++ (some 10 ∷ []))
      ≡ done ++ field_text name value
join-field done name value = simp append_assoc

fields-At :
    (c : Cursor) (done name value rest : Memory) (room : ℕ)
    → At (some c) done room rest
    → length name + length value + 4 ≤ room
    → At
        (http_push_field (http_field_define name value) c)
        (done ++ field_text name value)
        (room - (length name + length value + 4))
        rest
unfolding http_push_field http_field_define
fields-At c done name value rest room at fits =
    let p1 = push-At _ _ name rest room at (omega arith) in
    let p2 = byte-At _ _ rest _ 58 p1 (omega arith) in
    let p3 = byte-At _ _ rest _ 32 p2 (omega arith) in
    let p4 = push-At _ _ value rest _ p3 (omega arith) in
    let p5 = byte-At _ _ rest _ 13 p4 (omega arith) in
    let p6 = byte-At _ _ rest _ 10 p5 (omega arith) in
    At-as _ _ _ _ rest _ _ p6 refl (join-field done name value) (omega arith)

field-At :
    (o : Option Cursor) (done name value rest : Memory) (room : ℕ)
    → At o done room rest
    → length name + length value + 4 ≤ room
    → At
        (o >>= http_push_field (http_field_define name value))
        (done ++ field_text name value)
        (room - (length name + length value + 4))
        rest
field-At o done name value rest room at fits =
    let c : Cursor = (done ++ (at.gap ++ rest), length done) in
    let start : At (some c) done room rest = record {
      gap = at.gap;
      width = at.width;
      ends = refl;
    } in
    At-as (http_push_field (http_field_define name value) c) _ _ _ rest _ _
      (fields-At c done name value rest room start fits)
      (ap (λ (p : Option Cursor). p >>= http_push_field (http_field_define name value)) at.ends)
      refl refl

abbrev pub type_text : Memory → Memory
type_text type = if length type == 0 then [] else field_text (cells (codes "Content-Type")) type

-- The text of a response.
abbrev pub response_text : Memory → Memory → Memory → Memory → Memory → Memory
response_text status date type size body =
    cells (codes "HTTP/1.1 ")
    ++ (status
        ++ (cells (codes "\r\n")
            ++ (field_text (cells (codes "Server")) (cells (codes "reactor"))
                ++ (field_text (cells (codes "Date")) date
                    ++ (type_text type
                        ++ (field_text (cells (codes "Content-Length")) size
                            ++ (cells (codes "\r\n") ++ body)))))))

type-At :
    (o : Option Cursor) (done type rest : Memory) (room : ℕ)
    → At o done room rest
    → length (type_text type) ≤ room
    → At
        (let typed =
            o >>= http_push_field (http_field_define (cells (codes "Content-Type")) type) in
          if length type == 0 then o else typed)
        (done ++ type_text type)
        (room - length (type_text type))
        rest
type-At o done type rest room at fits = elim (ℕ_discrete (length type) 0) [
  | yes e ↦
      let test : (length type == 0) ≡ true = ground arith in
      rw test (At-as _ _ _ _ rest _ _ at refl (sym (append-nil done)) (omega arith))
  | no n ↦
      let test : (length type == 0) ≡ false = ground arith in
      let name = cells (codes "Content-Type") in
      let count = length-append type (cells (codes "\r\n")) in
      let size : length (type_text type) ≡ length name + length type + 4 =
        rw test (omega (arith, count)) in
      let p = field-At o done name type rest room at (omega (arith, size, fits)) in
      rw test (At-as _ _ _ _ rest _ _ p refl refl (omega (arith, size)))
]

pub length-field_text :
    (name value : Memory) → length (field_text name value) ≡ length name + length value + 4
length-field_text name value = omega (
  arith,
  length-append name (cells (codes ": ") ++ (value ++ cells (codes "\r\n"))),
  length-append value (cells (codes "\r\n")),
)

join-response :
    (done status date type size body : Memory)
    → (((((((done ++ cells (codes "HTTP/1.1 ")) ++ status) ++ cells (codes "\r\n"))
                ++ field_text (cells (codes "Server")) (cells (codes "reactor")))
              ++ field_text (cells (codes "Date")) date)
            ++ type_text type)
          ++ field_text (cells (codes "Content-Length")) size)
        ++ cells (codes "\r\n")
        ++ body
      ≡ done ++ response_text status date type size body
join-response done status date type size body = simp append_assoc

-- The writes of a response, in as much room as they take.
pub push_response-At :
    (c : Cursor) (done status date type size body rest : Memory) (room : ℕ)
    → At (some c) done room rest
    → length date ≡ 29
    → length status + length (type_text type) + length size + length body + 85 ≡ room
    → At
        (push_response status date type size body c)
        (done ++ response_text status date type size body)
        0
        rest
unfolding push_response
push_response-At c done status date type size body rest room at day fits =
    let crlf = cells (codes "\r\n") in
    let p1 = push-At _ _ (cells (codes "HTTP/1.1 ")) rest room at (omega (arith, fits)) in
    let p2 = push-At _ _ status rest _ p1 (omega (arith, fits)) in
    let p3 = push-At _ _ crlf rest _ p2 (omega (arith, fits)) in
    let p4 =
      field-At _ _ (cells (codes "Server")) (cells (codes "reactor")) rest _ p3
        (omega (arith, fits)) in
    let p5 = field-At _ _ (cells (codes "Date")) date rest _ p4 (omega (arith, fits, day)) in
    let p6 = type-At _ _ type rest _ p5 (omega (arith, fits, day)) in
    let p7 =
      field-At _ _ (cells (codes "Content-Length")) size rest _ p6 (omega (arith, fits, day)) in
    let p8 = push-At _ _ crlf rest _ p7 (omega (arith, fits, day)) in
    let p9 = push-At _ _ body rest _ p8 (omega (arith, fits, day)) in
    At-as _ _ _ _ rest _ _ p9 refl (join-response done status date type size body)
      (omega (arith, fits, day))
