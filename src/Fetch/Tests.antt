-- ===== src/Fetch/Tests.antt =====
-- Runs of the curl command line.
use crosspoint_simulator.Prelude.{[], ◌∷◌, codes, some, ◌≡◌}
use crosspoint_simulator.Fetch.{curl_command}
use crosspoint_simulator.Fetch.Shell.{between, words_in}
use crosspoint_simulator.Fetch.Command.{curl_words, curl_command-words}

curl_command-words_example :
    words_in between (
      curl_command
        (codes "/tmp/o")
        (codes "http://x/'; rm -rf '/")
        (some (codes "PUT"))
        ((codes "A", codes "it's") ∷ [])
        []
        (some (codes "a\nb")))
    ≡ some (
        curl_words
          (codes "/tmp/o")
          (codes "http://x/'; rm -rf '/")
          (some (codes "PUT"))
          ((codes "A", codes "it's") ∷ [])
          []
          (some (codes "a\nb")))
curl_command-words_example =
    curl_command-words (codes "/tmp/o") (codes "http://x/'; rm -rf '/") (some (codes "PUT"))
      ((codes "A", codes "it's") ∷ []) [] (some (codes "a\nb"))
