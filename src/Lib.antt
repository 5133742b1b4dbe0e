-- ===== src/Lib.antt =====
-- libubox: a model of the library's core and the theorems that make it correct.
--
-- The library is a set of parts that programs link one by one. Those modelled here, with the files of the
-- repository and of this development:
--
--   stream buffers   src/ustream.c, src/ustream.h                Ustream, Ustream/*
--   event loop       src/uloop.c, src/uloop.h                    Uloop, Uloop/*
--   linked lists     src/list.h                                  Links
--   safe iteration   src/safe_list.c, src/safe_list.h            SafeList, SafeList/*
--   task queues      src/runqueue.c, src/runqueue.h              Runqueue, Runqueue/*
--   attributes       src/blob.c, src/blob.h                      Blob, Blob/*
--   fields           src/blobmsg.c, src/blobmsg.h                Blobmsg, Blobmsg/*
--   versioned trees  src/vlist.c, src/vlist.h                    Vlist, Vlist/*
--   fields as JSON   src/blobmsg_json.c, src/blobmsg_json.h      BlobmsgJson, BlobmsgJson/*
--   scripts          src/json_script.c, src/json_script.h        JsonScript, JsonScript/*
--   named values     src/kvlist.c, src/kvlist.h                  Kvlist, Kvlist/*
--
-- Base and its children hold what the modules share: Boolean tests, lists measured by native numbers, memory
-- as a list of bytes, and signed integers.
--
-- Ustream. A buffer is its memory with the offsets of the pointers `data`, `tail` and `end` from `head`; a
-- list of buffers is the chain ahead of `data_tail` and the chain from it. The operations are those of the
-- source, under their names without the prefix. `none` stands for `abort()`, a read through NULL or fuel that
-- ran out. The callbacks of the reader are a log of events; the callback `write` of the implementation is a
-- parameter, with its documented contract as hypothesis. The loops run on the number of buffers of the chain,
-- as the C loops walk it, or on a count of bytes that each round diminishes. Numbers of bytes and buffers are
-- natural numbers: the C code counts them in `int`, and overflow of an `int` is not modelled.
--
-- Uloop. A timer or a process is named by a number, the address of its structure, and the state is a function
-- from addresses to structures with the list of those that are linked. What uloop_gettime and waitpid return
-- is an argument. The callbacks of timers are a parameter that may use every operation; those of processes are
-- a log. The loop over due timers runs on fuel, and more rounds than timers are due are enough. Delays are not
-- negative, and overflow of an `int` is not modelled.
--
-- The actions of signals are a function that sigaction reads and writes; `SIG_DFL` and the other constants of
-- the system are a parameter.
--
-- Uloop.Fds is the descriptors, with epoll. A mask of flags or events is the record of its bits. The events
-- still to deliver are the `cur_nfds` entries of `cur_fds` from `cur_fd` on, and the entries of `fd_stack` are
-- a list from the top. What epoll_wait fills in is an argument, and the calls of the kernel are a log. A
-- callback is a function of the whole state, so that it may add and delete descriptors and run the loop; one
-- that does has taken its own entries off the stack when it returns. The loop that calls it again runs on
-- fuel.
--
-- SafeList. A list is its head, its elements in order, and at each node the iterators that hang there. The
-- iteration runs on fuel, and one more than there are elements is enough for a callback that only deletes.
--
-- Blob. A pointer to an attribute is the memory from it on, a list of bytes, and a header that is not in the
-- memory is a fault. The accessors work on the word of the header, in 32 bits with their wrap-around. The
-- iteration runs on more rounds than there are bytes, and each round takes four bytes or more. The callback
-- `validate` is a function.
--
-- Blob.Buffer is the write side. A buffer is its bytes and the offset of its head; realloc may fail, which an
-- argument decides by the size, and an offset that is not in the buffer is a fault.
--
-- Blobmsg. A field is an attribute with a header of its own, the name. The functions read the memory of the
-- attribute as the C code does, and the lengths keep their wrap-around in 32 bits. A policy is a name, or
-- none, and a type; the table holds the attributes where the C code holds pointers to them.
--
-- Runqueue. The tasks of one queue are named by numbers, and a timer is the delay that it was set to. The
-- callbacks are parameters that may use every operation of the queue. The loop that starts tasks runs on fuel,
-- and more rounds than tasks wait are enough. Links has the linked lists that the event loop and the queue of
-- tasks are kept in. Runqueue.Events runs any sequence of calls and timers.
--
-- Vlist and Kvlist stand on the AVL tree of src/avl.c, which is another project's: Avl is an interface of its
-- operations with what they promise, and Avl.Assoc an association list that keeps it. Nodes, keys and names
-- are numbers. The calls of `update` are a log; a value of a kvlist is a block of bytes at the number of its
-- node, and reading a block that was freed is a fault.
--
-- JsonScript. An attribute is decoded, as a script is checked before it runs: a string, an array, a table
-- or another. A read of an element that is not there is a fault. A context has the files by name, the
-- number of the run that each file was last in, and the commands and errors so far; the model also keeps
-- the order in which files were entered, which the code does not. Expr.Formula has formulas and when they
-- are true, apart from the code that evaluates expressions. The callbacks and the C library's regular
-- expressions are parameters; a callback changes the context only by json_script_abort. An include spends
-- fuel, and one more than the files there are is enough, since a file is run once at most.
--
-- BlobmsgJson is the printer. Attributes are decoded, and one that the check refuses is marked. A buffer is
-- its room and the text so far; a write through NULL or past the room is a fault, and an argument decides
-- which allocations succeed. BlobmsgJson.Print has the text without the buffer, and BlobmsgJson.Read a reader
-- of JSON, on fuel of the size of the value.
--
-- Not modelled: the operations that cancel or kill all tasks of a queue, and its processes; the writing of
-- fields; the kqueue variant of the event loop and its main loop; formatted output to a stream; the module
-- utils; the making and freeing of scripts; the reading of JSON; sockets, files and the kernel's event queues,
-- which are input and output; the copies of other projects' code (the AVL tree of olsrd, md5, base64, json,
-- format and unformat).
pub mod Avl
pub mod Base
pub mod Blob
pub mod Blobmsg
pub mod BlobmsgJson
pub mod JsonScript
pub mod Kvlist
pub mod Links
pub mod Runqueue
pub mod SafeList
pub mod Uloop
pub mod Ustream
pub mod Vlist
