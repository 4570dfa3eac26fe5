-- ===== src/Pcm/Tests.antt =====
-- The selection of streams at concrete inputs.
use viosnd.Base.{ℕ, ◌≡◌, refl, List, [], ◌∷◌, arith}
use viosnd.Protocol.{PcmInfo, d_output, d_input}
use viosnd.Pcm.{find_stream_pair}
use viosnd.Pcm.Selection.{selection, find_stream_pair-eq-selection}

-- A stream of one direction that offers S16 at 48000 Hz, and one that offers no rate.
abbrev offers : ℕ → ℕ → PcmInfo
offers direction rates = record {
  features = 0;
  formats = 32;
  rates = rates;
  direction = direction;
  channels_min = 1;
  channels_max = 2;
}

abbrev three_streams : List PcmInfo
three_streams = offers d_output 0 ∷ offers d_input 128 ∷ offers d_output 128 ∷ []

find_stream_pair-eq-selection_example : find_stream_pair three_streams ≡ selection three_streams
find_stream_pair-eq-selection_example = find_stream_pair-eq-selection three_streams (omega arith)

-- The render stream is the one that supports the default format, not the first output.
three_streams-render : (find_stream_pair three_streams).0.render_stream_id ≡ 2
unfolding find_stream_pair
three_streams-render = refl
