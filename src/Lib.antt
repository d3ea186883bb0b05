-- ===== src/Lib.antt =====
-- Verification of graceful-music, a music player in C that began as cmus: the functions of its core
-- (app/*.c) as functions of antt, and theorems on them.
--
-- The program decodes a track in the producer thread, plays it in the consumer thread, and puts a
-- ring of chunks between the two. The rest of it is a library of tracks, the jobs that fill it, and
-- the commands and the terminal interface that drive the player.
--
-- Common: the names of the libraries that are used, and Boolean tests and list functions on the
-- native numbers.
--
-- Buffer: app/buffer.c, the ring of chunks. `Buffer` has the static variables; `get_rpos`,
-- `get_wpos`, `consume`, `fill`, `reset` and `get_filled_chunks` are the functions `buffer_*`. The
-- array is a function from the index. A function of the C file runs under `buffer_mutex`, so it is
-- one step; the threads hold no lock between two calls, so Buffer.Held has a step for each call and for what
-- a thread does with the position that it got, and Buffer.Trace lets them follow each other in any order. A failed
-- BUG_ON is the result `none`. The bytes of a chunk are a list of CHUNK_SIZE numbers; what `ip_read`
-- stores is a parameter.
--
-- Player: app/player.c, the two status variables and the calls of the program (State, Producer,
-- Consumer, Api and Seek have the functions in the file's order), on Buffer. The calls of an input plugin
-- (app/input.c) and of the output plugin (app/output.c) are modelled as far as the player can break
-- their protocol: what `ip` points to and whether it is open, and whether the device is open. What
-- the plugins answer (an error, the bytes of a read, a sample format) is the argument `Answers` of
-- a call, so a theorem holds for all answers. `producer_mutex` and `consumer_mutex` are held through
-- each call, so it is one step.
--
-- Worker: app/worker.c, the job queue and the worker thread, and the calls that wait for it.
-- Worker.Trace lets the thread's steps and the calls follow each other in any order; Worker.Wait adds the
-- condition variable and who sleeps on it.
--
-- Uchar: app/uchar.c and app/uchar.h, UTF-8 strings as lists of bytes: validation, reading and
-- writing of a character, and the sizes that are printed.
--
-- Volume: the part of app/player.c that scales the samples for the soft volume and the replay gain.
-- Samples are words; the replay gain is a double, of which only the factor that it gives appears.
--
-- Glob: app/glob.c, patterns with `*` and `?`. The folding of characters is a parameter.
--
-- History: app/history.c, the lines typed before and the search in them. Entries have addresses, so
-- that a pointer to one that was freed is told apart.
--
-- Expr: app/expr.c, filter expressions. Tokens, Parse, Keys, Short, Read and Eval have the functions: the
-- tokenizer, the parser, the tables of keys, short expressions such as ~y1990-1995, `expr_parse_i` and
-- `expr_eval`. A tree has the null pointer as a constructor, since the parser builds trees that lack an
-- operand. Grammar describes the language apart from the parser. A write behind the end of a buffer, a
-- failed BUG_ON and a null pointer that is followed are the result `bug`.
--
-- Filters: app/filters.c, the named filters, and `expr_check_leaves` of app/expr.c (Filters and Check),
-- which puts them into an expression; the parser is a parameter there. Store and Select have the
-- operations on the table. What `lib_set_filter` is called with is a field.
--
-- Tags: common/key-value.c and app/comment.c, the tags of a track as a list of keys and values, and the
-- numbers and dates in them.
--
-- Mergesort: app/mergesort.c, sorting of a linked list, for any comparison.
--
-- Window: app/window.c with the iterators of app/iter.h, the window that shows a part of a list. A row is
-- its position in the list, and 0 the head; so next and previous row are functions of the length. Move has
-- the operations that move the selection, Steps those that step over rows that are not selectable, which is
-- a parameter. Differences of ints that may be negative stand with their terms in another order. The
-- callback sel_changed is a count of its calls.
--
-- Loops are structural recursion on the list of what they read (`prebuffer_loop` on the answers of
-- `ip_read`, `reset_loop` on the number of chunks). The loops of `u_to_utf8` and
-- `u_str_print_size` run on fuel, one round for each byte and one for the 0 behind them, which is
-- enough because each round reads a byte. So do the two searches of Glob, one round for each place.
-- The tokenizer has a round for each character, the parser two for each token, the expansion of short
-- expressions five for each character, the sorting one for each entry; `expr_check_leaves` has one more
-- than there are filters that are not visited, since each one that is put in is marked. The loops of Window over rows have one round
-- more than there are rows, after which the positions come again.
--
-- Not modelled: the computation of the replay gain in app/player.c, the body of
-- producer_loop, the metadata and the snapshot that the interface reads; the plugins; the terminal
-- interface, the commands, the options, the key bindings and the files they read; the library's
-- tree of artists; the readers of tags, the HTTP client, the MPRIS and socket servers.
pub mod Common
pub mod Buffer
pub mod Player
pub mod Window
pub mod Worker
pub mod Uchar
pub mod Volume
pub mod Glob
pub mod History
pub mod Expr
pub mod Filters
pub mod Tags
pub mod Mergesort
