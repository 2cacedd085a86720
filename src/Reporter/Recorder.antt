-- ===== src/Reporter/Recorder.antt =====
-- reporter/recorder/recorder.go: the recorder as the list of its spans.
use zipkin_go.Base.{List, [], ◌∷◌, ◌++◌}

module _ {A : Type 0} where
  unfoldable pub send : A → List A → List A
  send span spans = spans ++ span ∷ []

  unfoldable pub flush_recorder : List A → List A × List A
  flush_recorder spans = (spans, [])

  unfoldable pub close_recorder : List A → List A
  unfolding flush_recorder
  close_recorder spans = (flush_recorder spans).1
