-- ===== src/Lib.antt =====
-- chessd: the rules of chess, and the commands, offers, ads, formulas and claims of the players of the
-- server.
--
-- The program is an internet chess server. Its core is the model of a game in src/board.h and
-- src/movecheck.c with the notation of src/algcheck.c: a typed move is recognised (`is_move`,
-- `alg_is_move`), read into squares (`parse_move`, `alg_parse_move`), tested (`legal_move`), tried on
-- a copy of the state (`move_calculate`), executed (`execute_move`, which also tells whether the game
-- is over) and taken back (`backup_move`). Beside it src/pending.c keeps the offers that players make
-- to one another: matches, draws, take backs and so on; src/gameproc.c has the commands by which a game
-- ends: `draw` compares positions by the texts that src/eco.c writes and takes an offer from that
-- list, `flag` looks at the clocks; src/formula.c evaluates the formulas by which players refuse
-- matches, and src/seekproc.c keeps the ads by which they look for games (`seek`, `unseek`, `play`,
-- `sought`), which name those formulas; src/matchproc.c starts the games (`create_new_match`).
-- src/command.c makes the lines that players type into calls of commands: it puts aliases in, takes
-- the line apart at semicolons, finds the command for a word and reads its parameters by the letters of
-- its entry in `command_list`.
--
-- Files, with the code that each models:
--   Prelude       lists, options, signed integers and Boolean tests that all files share
--   Board         src/board.h, `reset_board_vars`, `board_clear` and `board_standard` of src/board.c
--   Pieces        `InitPieceLoop` and `NextPieceLoop`; Pieces.Order compares them with nested loops
--   Legal         `legal_pawn_move` to `legal_king_move` and `legal_move`, for a given test of attacked
--                 squares
--   Check         `in_check`, `is_square_attacked` and `legal_move`; Check.Recursion compares their
--                 values with those of the mutual recursion of the source
--   Move          `struct move_t` and the results of a move
--   Execute       `execute_move` without its verdict (`check_game_status` is 0); Execute.State,
--                 Execute.Frame and Execute.EnPassant tell what it leaves
--   Notation      `alg_unparse` of src/algcheck.c
--   Calculate     `move_calculate` and `legal_andcheck_move`; Calculate.Safety; Calculate.Texts and
--                 Notation.Length bound its texts
--   Possible      the generators of moves; Possible.Jumps, Rays, Sliders, Squares and Pawns compare them with
--                 the rules of Legal
--   GameEnd       `has_legal_move` and the verdict of `execute_move`; GameEnd.Complete, Verdict
--   Syntax        `is_move` and `get_move_info` of src/algcheck.c
--   ParseMove     `alg_parse_move` and `parse_move`; ParseMove.Safety
--   Backup        `backup_move` without the clocks; Backup.Grants, Boards and RoundTrip take a move back
--                 that was executed, ParseMove.TakeBack one that was typed
--   Pending       src/pending.c; Pending.Counts, Offers, Partners and Commands
--   Fen           `board_to_FEN` and `FEN_to_board` of src/eco.c, `CharToPiece` and `PieceToChar` of
--                 src/gamedb.c; Fen.RoundTrip and Fen.Length
--   Formula       the texts of src/formula.c; Formula.Eval and Formula.Check evaluate and set formulas;
--                 Formula.Reading, Ends and Total, Shape and Independence, and Clauses have the theorems
--   Draw          `CheckRepetition`, `Check50MoveRule` and `draw` of src/gameproc.c; Draw.Recurrence,
--                 Repetition and Claims
--   Flag          `flag` and the mating material of src/gameproc.c, `game_update_time` of src/gamedb.c;
--                 Flag.Wins
--   ServerLists   the chains of src/lists.c with `list_find`, `in_list` and `list_add`;
--                 ServerLists.Managers has `list_sub`, with `player_find_bylogin` of src/playerdb.c;
--                 ServerLists.Chains, Refines, Lookup, Demotions and Removal have the theorems
--   Seeks         `seekList` of src/seekproc.c with the loops over it; Seeks.Kinds has `game_isblitz` of
--                 src/gamedb.c and `GetRating` of src/playerdb.c, Seeks.Matching `seekmatch`, Seeks.Words
--                 the words of `seek`, Seeks.Commands and Answers the commands; Seeks.Table, Orderly,
--                 Changes, Ranges, Always, Answered, Meeting, Play and Reuse have the theorems
--   Commands      src/command.c: `parse_command`, `alias_substitute`, `match_command`; Commands.Params has
--                 `get_parameters`, Commands.Run `one_command` and `process_command`, with `is_drop` of
--                 src/setup.c; Commands.Fill, Alias, Match, Fits and Sequence have the theorems
--   Matches       `create_new_match`, `pick_colors` and `prepare_match` of src/matchproc.c; Matches.Starts
--   Examples      positions, texts, offers, formulas and lists on which the theorems are applied
--
-- State and data. A board is a function of file and rank; the operations read it at squares of the
-- board, and a square is a piece with its colour or NOPIECE. The game table and the lengths of the
-- move lists are arguments (`Garray`). What the source writes through pointers is returned: the new
-- state and, where a move is filled in, the new move. A drop is an origin of its own in place of the
-- file number ALG_DROP. Texts are lists of character codes. In Pending an offer has an address, by
-- which `delete_pending` finds it, and the counts of the players are signed, as in the source.
--
-- Loops. The piece loop runs on fuel 65, one more than the squares of the board; a ray runs on fuel
-- 8, more than the squares in one direction; Pieces.Order and Possible.Rays show that this is enough.
-- The scans of `backup_move` have fuel for every move of the list. A run of empty squares in a FEN text
-- has fuel 8, the files of a rank. `CheckFormula` has one more than the length of its text as fuel, its
-- loop over the operators the same, and a clause as many levels of references as there are clauses
-- below it, and itself; Formula.Total shows that this is enough. The loop of `CheckRepetition` has the
-- number of its rounds; that of `alias_substitute` one more than the characters of the alias, and a round
-- for each `@`; Commands.Fill shows that this is enough. All other loops run along lists.
--
-- In Seeks an `int` field of an ad is `none` for NOVALUE, and an access outside the array is a result of its
-- own. In Commands a word that points to the static array of `get_parameters` is a value of its own.
--
-- Numbers. The `int` of a formula has 32 bits: what the source adds, subtracts, multiplies, negates or
-- reads wraps around, as the instructions of the machine do, and the division of INT_MIN by -1, at which
-- the machine stops the program, is an outcome of its own. In Seeks a formula that stops the program
-- counts as one that refuses. The `int` of clocks is unbounded. What a formula reads of the two players
-- (ratings, flags, lists) is a record of values, and so is the quotient by FUDGE_FACTOR, a floating
-- point number. The results of `atoi`, `sprintf` and `sscanf` are parameters, and so are the answers of other
-- parts about the players that the commands on ads ask for.
--
-- Not modelled: the display of boards, shuffled and stored positions; the clocks of `backup_move`,
-- which depend on network connections and on the time of day; printed texts; the lookup of players by
-- a part of their name and the commands that `accept` starts; what `game_ended` does; the clauses that formula.c collects
-- for the challenger; the order of the tests in `legal_king_move`, by which the recursion of `legal_move`
-- through `is_square_attacked` ends; the writes of src/lists.c to the database; the commands themselves that lines call, but for those named above; the texts for the
-- players who see an ad; the match command and `accept_match`; and the components on ratings, player
-- data, the database and the network.
pub mod Prelude
pub mod Board
pub mod Pieces
pub mod Legal
pub mod Check
pub mod Move
pub mod Execute
pub mod Notation
pub mod Calculate
pub mod Possible
pub mod GameEnd
pub mod Syntax
pub mod ParseMove
pub mod Backup
pub mod Pending
pub mod Fen
pub mod Formula
pub mod Draw
pub mod Flag
pub mod ServerLists
pub mod Seeks
pub mod Commands
pub mod Matches
pub mod Examples
