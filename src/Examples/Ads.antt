-- ===== src/Examples/Ads.antt =====
-- src/seekproc.c at concrete inputs: two players, of whom the first seeks a game.
use docker_chessd.Prelude.{
  ℕ, ◌+◌, ◌-◌, ◌*◌, ◌≡◌, refl, true, false, some, List, [], ◌∷◌, get_elem?, arith,
}
use docker_chessd.Prelude.Int.{pos, negsuc}
use docker_chessd.Prelude.Text.{codes, same_text, until, from}
use docker_chessd.Formula.Check.{check_line, check_clause, check_formula, game_matches_formula}
use docker_chessd.Seeks.{
  SeekTuple, seekclear, cleared, is_duplet, seekinit, seekcount, seekremoveall,
}
use docker_chessd.Seeks.Matching.{formula_allows, own_formula_allows, meets, seekmatch}
use docker_chessd.Seeks.Kinds.{by_time, game_isblitz, get_rating}
use docker_chessd.Seeks.Words.{
  System, strtok, second_token, first_token, isrange, cut_word, time_word, range_word, rated_word,
  color_word, formula_word, numbered, wild_word, board_word, name_word, seek_word, seek_words,
}
use docker_chessd.Seeks.Commands.{
  House, no_game, posted, plays, complete, objection, post, answer_or_post, update, place, offer_or,
  seek_tuple, com_seek, out_of_range, com_unseek,
}
use docker_chessd.Seeks.Answers.{by_index, started, refusal, play_ad, com_play, seeks, leaves, run}
use docker_chessd.Seeks.Orderly.{IsOrderly}
use docker_chessd.Seeks.Always.{run-IsOrderly}
use docker_chessd.Seeks.Play.{IsFit, com_play-IsFit}
use docker_chessd.Seeks.Meeting.{com_seek-plays}
use docker_chessd.Examples.Formulas.{world, no_formulas}

-- The number that a text of digits has.
abbrev number_from : ℕ → List ℕ → ℕ
number_from n [] = n
number_from n (c ∷ s) = number_from (n * 10 + (c - b'0')) s

abbrev system : System
system = record { atoi = λ s. pos (number_from 0 s); decimal = λ z. []; board_exists = λ c b. true }

-- Registered players without a game, all rated 1500.
abbrev house : House
house = record {
  system = system;
  judges = record { world = λ w b. world; formulas = λ b. no_formulas };
  game = λ p. no_game;
  registered = λ p. true;
  plays_rated = λ p. true;
  d_time = λ p. 2;
  d_inc = λ p. 12;
  stats = λ p. record {
    b_stats = 1500;
    s_stats = 1500;
    w_stats = 1500;
    l_stats = 1500;
    bug_stats = 1500;
  };
  censored = λ p q. false;
  noplay = λ p q. false;
  computer = λ p. false;
  adjourned = λ p q. false;
}

abbrev two_entries : List SeekTuple
two_entries = seekclear ∷ seekclear ∷ []

abbrev wanted_words : List (List ℕ)
wanted_words = codes "5" ∷ codes "0" ∷ codes "1400-1600" ∷ codes "white" ∷ codes "f" ∷ []

abbrev answered : List (List ℕ)
answered = codes "5" ∷ codes "0" ∷ codes "black" ∷ []

-- The list with the ad of player 1.
abbrev posted_ad : SeekTuple
posted_ad = complete house 1 (record seekclear {
  time = some 5;
  inc = some 0;
  color = some 1;
  min_rating = some 1400;
  max_rating = some 1600;
  formula = some 1;
})

abbrev ads : List SeekTuple
ads = posted_ad ∷ seekclear ∷ []

seek_posts : com_seek house 1 100 wanted_words two_entries ≡ (posted 0, ads)
unfolding same_text until from check_line check_clause check_formula game_matches_formula by_time
    game_isblitz get_rating is_duplet formula_allows own_formula_allows meets seekmatch strtok
    second_token first_token isrange cut_word time_word range_word rated_word color_word
    formula_word numbered wild_word board_word name_word seek_word seek_words complete objection
    post answer_or_post update place offer_or seek_tuple com_seek
seek_posts = refl

seek_answers : com_seek house 2 100 answered ads ≡ (plays 0, ads)
unfolding same_text until from check_line check_clause check_formula game_matches_formula by_time
    game_isblitz get_rating is_duplet formula_allows own_formula_allows meets seekmatch strtok
    second_token first_token isrange cut_word time_word range_word rated_word color_word
    formula_word numbered wild_word board_word name_word seek_word seek_words complete objection
    post answer_or_post update place offer_or seek_tuple com_seek
seek_answers = refl

play_starts :
    com_play house 2 200 (by_index (pos 0)) ads
    ≡ (started 1 posted_ad, cleared 200 ∷ seekclear ∷ [])
unfolding same_text check_line check_clause check_formula game_matches_formula by_time game_isblitz
    get_rating formula_allows own_formula_allows complete refusal play_ad com_play
play_starts = refl

-- A number that is no index reads outside the array.
unseek_out_of_range : (com_unseek 1 (some (negsuc 4)) 200 ads).0 ≡ out_of_range
unfolding com_unseek complete
unseek_out_of_range = refl

-- A word that `isrange` has cut is read as what is left of it.
cut_by_range :
    seek_words system (codes "rated-x" ∷ []) seekclear ≡ some (record seekclear { rated = some 1 })
unfolding same_text until from strtok second_token first_token isrange cut_word time_word range_word
    rated_word color_word formula_word numbered wild_word board_word name_word seek_word seek_words
cut_by_range = refl

run-IsOrderly_example : IsOrderly (
    run
      ((house, 100, seeks 1 wanted_words)
        ∷ (house, 110, seeks 2 answered)
        ∷ (house, 120, leaves 1)
        ∷ [])
      seekinit)
run-IsOrderly_example = run-IsOrderly (
    (house, 100, seeks 1 wanted_words)
    ∷ (house, 110, seeks 2 answered)
    ∷ (house, 120, leaves 1)
    ∷ [])

com_play-IsFit_example :
    ((i : ℕ) × (get_elem? ads i ≡ some posted_ad))
    × (SeekTuple.player posted_ad ≡ some 1)
    × IsFit house 2 1 posted_ad
    × (seekcount 2 (cleared 200 ∷ seekclear ∷ []) ≡ 0)
    × (seekcount 1 (cleared 200 ∷ seekclear ∷ []) ≡ 0)
    × (seekcount 3 (cleared 200 ∷ seekclear ∷ []) ≡ seekcount 3 ads)
com_play-IsFit_example =
    com_play-IsFit house 2 200 1 3 (by_index (pos 0)) posted_ad ads (cleared 200 ∷ seekclear ∷ [])
      play_starts (λ e. omega (arith, e)) (λ e. omega (arith, e))

com_seek-plays_example :
    (ads ≡ ads)
    × (com_play house 2 100 (by_index (pos 0)) ads
        ≡ (started 1 posted_ad, seekremoveall 1 100 (seekremoveall 2 100 ads)))
unfolding complete
com_seek-plays_example =
    com_seek-plays house 2 1 100 0 answered posted_ad ads ads seek_answers refl refl refl refl refl
