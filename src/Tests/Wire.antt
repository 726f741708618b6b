-- ===== src/Tests/Wire.antt =====
-- Instances of the theorems on the protocol, the log, and the numbers in texts.
use redis_like.Base.{◌≡◌, refl, List, [], ◌∷◌, ◌++◌, some, false, arith, Bytes, codes, negsuc, map}
use redis_like.Text.{parse_int, to_string}
use redis_like.Text.RoundTrip.{parse_int-to_string}
use redis_like.Resp.{RespCommand, round, emit, feed, concat, array, bulk_string}
use redis_like.Resp.Chunks.{feed_all, feed_all-concat}
use redis_like.Resp.RoundTrip.{round-array}
use redis_like.Resp.Malformed.{headed, feed_all-headed}
use redis_like.Aof.{AofLogger, open_log, replay, serialize, call_all}
use redis_like.Aof.Replay.{append_all, replay-append_all}

feed_all-concat_example :
    feed_all (codes "*2\r\n$3\r\nGE") (codes "T\r\n$1\r" ∷ codes "\nk\r\n*1\r\n" ∷ [])
    ≡ feed (codes "*2\r\n$3\r\nGE") (concat (codes "T\r\n$1\r" ∷ codes "\nk\r\n*1\r\n" ∷ []))
feed_all-concat_example =
    feed_all-concat (codes "*2\r\n$3\r\nGE") (codes "T\r\n$1\r") (codes "\nk\r\n*1\r\n" ∷ [])

round-array_example :
    round (array (map bulk_string (codes "SET" ∷ codes "k" ∷ codes "a\r\nb" ∷ [])) ++ codes "*1")
    ≡ emit (record { name = codes "SET"; args = codes "k" ∷ codes "a\r\nb" ∷ [] }) (codes "*1")
round-array_example =
    round-array (codes "SET") (codes "k" ∷ codes "a\r\nb" ∷ []) (codes "*1")
      (omega arith, (omega arith, (omega arith, tt))) (omega arith)

feed_all-headed_example :
    feed_all (headed 2 b'x' (codes "\r\n")) (codes "*1\r\n" ∷ codes "$4\r\nPING\r\n" ∷ [])
    ≡ ([], headed 2 b'x' (codes "\r\n" ++ concat (codes "*1\r\n" ∷ codes "$4\r\nPING\r\n" ∷ [])))
feed_all-headed_example =
    feed_all-headed 2 b'x' (codes "\r\n") (codes "*1\r\n" ∷ codes "$4\r\nPING\r\n" ∷ [])
      (omega arith) (omega arith) (λ e. omega arith)

parse_int-to_string_example : parse_int (to_string (negsuc 4_095)) ≡ some (negsuc 4_095)
parse_int-to_string_example = parse_int-to_string (negsuc 4_095) (omega arith, omega arith)

abbrev closed_log : AofLogger
closed_log = record { file = []; is_open = false }

abbrev push_b : RespCommand
push_b = record { name = codes "RPUSH"; args = codes "l" ∷ codes "b" ∷ [] }

abbrev del_l : RespCommand
del_l = record { name = codes "DEL"; args = codes "l" ∷ [] }

abbrev names : List Bytes → RespCommand → List Bytes
names seen cmd = cmd.name ∷ seen

replay-append_all_example :
    replay names
      ((append_all (open_log closed_log) (push_b ∷ del_l ∷ [])).file ++ codes "*2\r\n$3\r\nDE")
      []
    ≡ (2, call_all names (push_b ∷ del_l ∷ []) [])
unfolding serialize array bulk_string concat
replay-append_all_example =
    replay-append_all names [] closed_log (push_b ∷ del_l ∷ []) del_l (codes "*2\r\n$3\r\nDE")
      (codes "L\r\n$1\r\nl\r\n") refl
      (
        (omega arith, (omega arith, (omega arith, (omega arith, tt)))),
        ((omega arith, (omega arith, (omega arith, tt))), tt),
      )
      (omega arith, (omega arith, (omega arith, tt))) refl (λ e. cc e)
