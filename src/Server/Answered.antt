-- ===== src/Server/Answered.antt =====
-- The requests that `Serve` answers.
use vextra.Base.{
  ℕ, zero, suc, ◌<◌, ◌≡◌, refl, ap, ◌∙◌, ◌||◌, Option, some, List, [], ◌∷◌, arith, ltb, length,
  drop, length-drop, Text, String,
}
use vextra.Base.Result.{Err, Result, ok, err, bind}
use mathlib.Core.Path.{subst}
use vextra.Base.Gives.{Holds, Holds-if}
use vextra.Entry.{Entry}
use vextra.Codec.{max_frame}
use vextra.Wire.{Msg, Frame, Sink, read_frame, get_u32}
use vextra.Fs.{Fs}
use vextra.Server.Serve.{
  Serving, close_writers, stream_end, serve_one, serve_next, next_frame, serve_loop, serve, closed,
}

module _ (marshal : Msg → Text) (unmarshal : Text → Option Msg) (inflate : Text → Text) where
  abbrev Shorter : ℕ → Frame × Text → Type 0
  Shorter n (f, rest) = length rest < n

  parsed-Shorter :
      (n : ℕ) (x : Result Frame) (rest : Text)
      → length rest < n
      → Holds (Shorter n) (bind x λ f. ok (f, rest))
  parsed-Shorter n (ok f) rest l = l
  parsed-Shorter n (err e) rest l = tt

  -- A frame takes bytes of the input.
  read_frame-Shorter :
      (input : Text) → Holds (Shorter (length input)) (read_frame marshal unmarshal inflate input)
  unfolding read_frame
  read_frame-Shorter [] = tt
  read_frame-Shorter (b ∷ r) =
      let total = get_u32 (b ∷ r) in
      let rest = drop 4 (b ∷ r) in
      Holds-if (Shorter _) (ltb (length (b ∷ r)) 4) _ _ tt (
        Holds-if (Shorter _) (ltb total 9 || ltb max_frame total) _ _ tt (
          Holds-if (Shorter _) (ltb (length rest) total) _ _ tt (
            parsed-Shorter _ _ (drop total rest)
              (omega (arith, length-drop total rest, length-drop 4 (b ∷ r))))))

-- The requests that are read from a stream one after another, and what is left behind the last one.
pub data Requests (marshal : Msg → Text) (unmarshal : Text → Option Msg) (inflate : Text → Text)
    : Text → List Frame → Text → Type 0 where
  no_more : (input : Text) → Requests marshal unmarshal inflate input [] input
  request :
      (input rest left : Text) (f : Frame) (fs : List Frame)
      → read_frame marshal unmarshal inflate input ≡ ok (f, rest)
      → Requests marshal unmarshal inflate rest fs left
      → Requests marshal unmarshal inflate input (f ∷ fs) left

module _ (error_text : Err → String) (marshal_list : List Entry → Option Text)
    (hex_encode : Text → Text) (hex_decode : Text → Option Text) (host arch : Text)
    (marshal : Msg → Text) (unmarshal : Text → Option Msg) (inflate : Text → Text)
    (deflate : Text → Option Text) {S H : Type 0} (fs : Fs S H) where
  -- The requests answered one after another.
  abbrev pub answer_all : List Frame → Serving S H → Serving S H
  answer_all [] st = st
  answer_all (f ∷ rest) st = answer_all rest (
      serve_one error_text marshal_list hex_encode hex_decode host arch marshal unmarshal inflate
        deflate fs f st)

  abbrev loop : ℕ → Text → Serving S H → Option (Result (Unit {0}) × Serving S H)
  loop =
      serve_loop error_text marshal_list hex_encode hex_decode host arch marshal unmarshal inflate
        deflate fs

  -- What a run of the loop has done.
  pub record Answered (input : Text) (st : Serving S H)
      (out : Option (Result (Unit {0}) × Serving S H)) : Type 0 where
    pub frames : List Frame
    pub left : Text
    pub requests : Requests marshal unmarshal inflate input frames left
    pub stop : Err
    pub stopped : read_frame marshal unmarshal inflate left ≡ err stop
    pub result : out ≡ some (stream_end stop, answer_all frames st)

  loop-Answered :
      (n : ℕ) (input : Text) (st : Serving S H) (x : Result (Frame × Text))
      → read_frame marshal unmarshal inflate input ≡ x
      → length input < n
      → Answered input st (loop n input st)
  unfolding serve_loop
  loop-Answered zero input st x e l = absurd (omega arith)
  loop-Answered (suc n) input st (err f) e l = record {
    frames = [];
    left = input;
    requests = no_more input;
    stop = f;
    stopped = e;
    result =
        ap
          (serve_next error_text marshal_list hex_encode hex_decode host arch marshal unmarshal
            inflate deflate fs (loop n) st)
          e;
  }
  loop-Answered (suc n) input st (ok (f, rest)) e l =
      let less : length rest < length input =
        subst (Holds (Shorter marshal unmarshal inflate (length input))) e
          (read_frame-Shorter marshal unmarshal inflate input) in
      let after =
        serve_one error_text marshal_list hex_encode hex_decode host arch marshal unmarshal inflate
          deflate fs f st in
      let more =
        loop-Answered n rest after
          (next_frame error_text marshal_list hex_encode hex_decode host arch marshal unmarshal
            inflate deflate fs rest)
          refl (omega (arith, less)) in
      record {
        frames = f ∷ more.frames;
        left = more.left;
        requests = request input rest more.left f more.frames e more.requests;
        stop = more.stop;
        stopped = more.stopped;
        result =
            ap
              (serve_next error_text marshal_list hex_encode hex_decode host arch marshal unmarshal
                inflate deflate fs (loop n) st)
              e
            ∙ more.result;
      }

  abbrev fresh : S → Sink → Serving S H
  fresh w out = (record { world = w; handles = []; next = 0 }, out)

  -- A whole run of `Serve`: the requests that it read, where it stopped, and what it left.
  pub record Served (input : Text) (w : S) (out : Sink) : Type 0 where
    pub frames : List Frame
    pub left : Text
    pub stop : Err
    pub requests : Requests marshal unmarshal inflate input frames left
    pub stopped : read_frame marshal unmarshal inflate left ≡ err stop
    pub result :
        serve error_text marshal_list hex_encode hex_decode host arch marshal unmarshal inflate
          deflate fs input w out
        ≡ some (
          stream_end stop,
          (
            close_writers fs (answer_all frames (fresh w out)).0,
            (answer_all frames (fresh w out)).1,
          ),
        )

  -- Serve ends on every input. It has answered the frames that can be read from it one after another, in
  -- that order, each by handle and reply over what the former ones left; then, at the first place where
  -- no frame can be read, it has aborted the writers still open, and it returns no error if
  -- that read says that the input has ended, and otherwise the error of that read.
  pub serve-Served : (input : Text) (w : S) (out : Sink) → Served input w out
  unfolding serve
  serve-Served input w out =
      let a = loop-Answered (suc (length input)) input (fresh w out) _ refl (omega arith) in
      record {
        frames = a.frames;
        left = a.left;
        stop = a.stop;
        requests = a.requests;
        stopped = a.stopped;
        result =
            ap
              (closed error_text marshal_list hex_encode hex_decode host arch marshal unmarshal
                inflate deflate fs)
              a.result;
      }
