-- ===== src/Lib.antt =====
-- A verification library for the LPMud-NG game driver (lpmud/*.c). The driver runs the objects of
-- a game, which are programs in LPC: it compiles and interprets them, keeps the strings they share,
-- the table of their names, their heart beats and delayed calls, and the list of the wizards who
-- wrote them. The models here are the data structures that all of this rests on, with the
-- functions that change them, written as pure functions on an explicit state.
--
-- Parts, files and code:
--   Base            Names that all modules share: lists, Boolean tests, C integers (Int), the outcome
--                   of a call that may end in error() or fatal() or be undefined in C (Run), C strings
--                   as their bytes (Text), and chains of a hash table (Chain).
--   Hash            The hash functions of lpmud/stralloc.c (StrHash) and lpmud/otable.c (ObjHash), with
--                   their signed bytes and the index that C computes; Hash.Table is the theory of a
--                   table of chains that both tables use.
--   Strings         lpmud/stralloc.c: the table of shared strings, findstring, make_shared_string and
--                   free_string with the count of references as a short, and the statistics. A string
--                   is an address with its bytes and its count; the address of a new one is an argument,
--                   since xalloc chooses it.
--   Objects         lpmud/otable.c: enter, remove and look up objects by name.
--   Value           The values of LPC (lpmud/interpret.h) and the reference counts that copying and
--                   freeing a value changes (lpmud/interpret.c, lpmud/object.c).
--   CallOut         lpmud/call_out.c: new_call_out, remove_call_out and call_out on the delta list of
--                   delayed calls, with the free list of structures. Calls and their arguments use
--                   Value. What the LPC function does that is called is a parameter.
--   HeartBeat       The heart beats of lpmud/backend.c: cycle_hb_list, set_heart_beat and
--                   call_heart_beat on the pointers next_heart_beat, hb_list and hb_tail.
--   Explode         explode_string and implode_string of lpmud/interpret.c.
--   Living          The living names of lpmud/object.c: find_living_object, set_living_name and
--                   remove_living_name.
--   Environment     The inventories of lpmud/simulate.c: move_object, add_light and remove_sent on the
--                   tree of super, contains and next_inv.
--   Transfer        transfer_object and move_or_destruct of lpmud/simulate.c, on top of Environment's
--                   move_object.
--   Paths           legal_path, check_file_name and match_string of lpmud/simulate.c.
--   Interp          print_expr of lpmud/interpret.c on parse trees (lpmud/lnode.h): the statements and
--                   operators of LPC, assign, assign_vec and check_for_recursion. Interp.Ops are the
--                   operators on values, Interp.Assign the assignments, Interp.Loops the lists of
--                   statements and the loops, Interp.Eval the switch, and Interp.Bits the strings of bits;
--                   variables use Value. Interp.Respect carries a relation of two states
--                   through print_expr.
--   Comm            lpmud/comm1.c: Comm.Buffer is the input buffer (copy_chars, first_cmd_in_buf,
--                   next_cmd_in_buf and the storing of get_message), Comm.Telnet is telnet_neg, with the length
--                   of the table telopts of <arpa/telnet.h> as a parameter,
--                   Comm.Snoop the table of connections (set_snoop, remove_interactive), and
--                   Comm.Turns the search of get_message for the next command.
--   Save            save_object, with its temporary file, and restore_object of lpmud/object.c, with find_status of
--                   lpmud/simulate.c; the values are those of Value.
--   Commands        The sentences of lpmud/simulate.c (lpmud/sent.h) as addresses: alloc_sentence,
--                   free_sentence, remove_sent, add_action and add_verb; Commands.Parser is special_parse,
--                   player_parser and command_for_object, with parse_command of
--                   lpmud/backend.c. Environment has the same remove_sent on lists;
--                   Commands.Listed relates the two.
--   WizList         lpmud/wiz_list.c: the list of wizards, its order, scores and their decay;
--                   WizList.File is the file WIZLIST, with the decimal numbers of Save, and
--                   WizList.Errors the last error of each wizard (save_error, get_error_file) and
--                   WizList.Ranking the lines of wizlist.
--
-- Each part is a file with the definitions, and below it modules named for what they prove, and
-- Tests, which holds runs at concrete inputs and each property at an example.
--
-- Numbers: a count or an address is a natural number, an int or long that can be negative is the ℤ
-- of Base.Int. Where a width matters (the shorts of a reference count and of a light, the int of the hash loop, the
-- numbers of LPC) the wrap-around or the bound is written out, or the result is undefined as in C;
-- other counters are taken to be small enough.
--
-- Fuel: a loop over pointers or a loop of calls has fuel, and the result `none` is the end of it. The
-- call_out loop takes one unit for each call that is due, a walk along the list of heart beats one
-- for each object and one for its end, a round of heart beats one for each object, and the loops of
-- explode one for each byte and one for the end. A move takes one for each object above the place
-- that it leaves or enters, and one for each in the inventory of the destination. player_parser takes one
-- for each sentence of the player and one for the end of the chain. The lines of a
-- saved object, or of WIZLIST, are at most as many as its bytes. print_expr takes one for each nested call and one for
-- each turn of a loop, and 18001 are enough, as eval_cost stops it before. The theorems on
-- these loops ask for that much fuel.
--
-- Not modelled: the compiler (lpmud/lang.y), most built-in functions and the calls of LPC functions in
-- lpmud/interpret.c, sockets, TLS and the messages to players in lpmud/comm1.c, the swap file
-- (lpmud/swap.c), the parser of player sentences (lpmud/parse.c) and the other functions of
-- lpmud/simulate.c, lpmud/object.c and lpmud/backend.c. The regular expressions (lpmud/regexp.c), the
-- line editor (lpmud/ed.c) and the allocators (lpmud/smalloc.c and others) are copies of other
-- programs or general tools. A call of an LPC function (apply) is a parameter with what the
-- driver relies on as hypotheses.
pub mod Base
pub mod CallOut
pub mod Comm
pub mod Commands
pub mod Environment
pub mod Explode
pub mod Hash
pub mod HeartBeat
pub mod Interp
pub mod Living
pub mod Objects
pub mod Paths
pub mod Save
pub mod Strings
pub mod Transfer
pub mod Value
pub mod WizList
