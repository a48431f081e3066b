-- ===== src/Events/Scenarios.antt =====
-- A small log, its pages and ends, and a session whose stream is replaced.
use plecture.Base.{
  String, ℕ, zero, suc, ◌≡◌, ◌↔◌, ◌≤◌, refl, ap, true, List, [], ◌∷◌, ◌++◌, none, some, arith,
  length,
}
use plecture.Events.{Event, Direction, Filter, match_type}
use plecture.Events.Patterns.{Fits, match_type-Fits}
use plecture.Events.Log.{
  Row, Ordered, Streams, list_events, tail, tail_offset, rows_from, read_from_stream,
}
use plecture.Events.Log.Paging.{matching, within, below, list_events-pages}
use plecture.Events.Log.Tails.{last, kept, tail_offset-tail}
use plecture.Events.Log.Streams.{IsLive, Served, read_from_stream-Served}
use plecture.Events.Cursors.{Numbers, encode_resume_token, parse_resume_token}
use plecture.Events.Cursors.Tokens.{HasNoColon, parse_resume_token-encode}

abbrev glob : String
glob = "plect.*"

abbrev sleep : String
sleep = "plect.session.sleep"

match_type-Fits_example : match_type glob sleep ≡ true ↔ Fits glob sleep
match_type-Fits_example = match_type-Fits glob sleep

abbrev event : String → String → Event
event id typ = record {
  id = id;
  session_name = "s";
  time = 7;
  typ = typ;
  source = "plect";
  direction = Direction.internal;
  summary = "";
  body = "";
  metadata = [];
}

abbrev row : ℕ → String → Row
row n typ = record { seq = n; event = event typ typ }

abbrev rows : List Row
rows = row 1 "a" ∷ row 2 "plect.b" ∷ row 4 "plect.c" ∷ row 5 "d" ∷ row 6 "plect.e" ∷ []

abbrev own : Filter
own = record { types = "plect.*" ∷ []; sources = []; direction = none; limit = 2 }

rows-Ordered : Ordered rows
rows-Ordered = (
  (omega arith, (omega arith, (omega arith, (omega arith, tt)))),
  (
    (omega arith, (omega arith, (omega arith, tt))),
    ((omega arith, (omega arith, tt)), ((omega arith, tt), (tt, tt))),
  ),
)

first_page : list_events own 1 rows ≡ (row 2 "plect.b" ∷ row 4 "plect.c" ∷ [], 5)
unfolding list_events plecture.Events.matches
first_page = refl

list_events-pages_example :
    (((list_events own 1 rows).0 ++ matching own (list_events own 1 rows).1 rows
        ≡ matching own 1 rows)
      × (1 ≤ (list_events own 1 rows).1))
    × ((within own (length (list_events own 1 rows).0) ≡ true)
        × (below own (length (list_events own 1 rows).0) ≡ true
            → matching own (list_events own 1 rows).1 rows ≡ []))
list_events-pages_example = list_events-pages own 1 rows rows-Ordered

last_two : tail_offset own 2 rows ≡ 4
unfolding tail_offset plecture.Events.matches
last_two = refl

tail_offset-tail_example :
    (tail own 2 rows ≡ last 2 (kept (λ r. r.event) own rows))
    × (kept (λ r. r.event) own (rows_from (tail_offset own 2 rows) rows) ≡ tail own 2 rows)
tail_offset-tail_example = tail_offset-tail own 2 rows rows-Ordered (omega arith)

abbrev two_streams : Streams
two_streams = ("old", rows) ∷ ("new", row 1 "f" ∷ []) ∷ []

two_streams-IsLive : IsLive two_streams "new"
two_streams-IsLive = IsLive.older rows-Ordered refl refl (IsLive.newest (tt, tt))

abbrev new : String
new = "new"

abbrev old : String
old = "old"

read_from_stream-Served_example : Served two_streams old 7 (read_from_stream two_streams new old 7)
read_from_stream-Served_example =
    read_from_stream-Served two_streams new two_streams-IsLive old 7 refl refl refl

-- Numbers in strokes.
abbrev unary : ℕ → String
unary zero = ""
unary (suc n) = String.◌∷◌ "1" (unary n)

abbrev count_strokes : String → ℕ
count_strokes String.[] = 0
count_strokes (String.◌∷◌ c s) = suc (count_strokes s)

abbrev in_strokes : Numbers
in_strokes = record { format = unary; parse = λ s. some (count_strokes s) }

count_strokes-unary : (n : ℕ) → count_strokes (unary n) ≡ n
count_strokes-unary zero = refl
count_strokes-unary (suc n) = ap suc (count_strokes-unary n)

old-HasNoColon : HasNoColon old
unfolding HasNoColon
old-HasNoColon = (refl, (refl, (refl, tt)))

parse_resume_token-encode_example :
    parse_resume_token in_strokes (encode_resume_token in_strokes old 12) ≡ some (old, 12)
parse_resume_token-encode_example =
    parse_resume_token-encode in_strokes (λ n. ap some (count_strokes-unary n)) old 12
      old-HasNoColon
