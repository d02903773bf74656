-- ===== src/Lib.antt =====
-- Radmind: the core of the tools that compare a filesystem with transcripts and apply the
-- difference, and the server that they take transcripts and files from.
--
-- The programs share a set of C files, which are modelled one module for each file:
--
-- PathCmp (pathcmp.c): the order on paths, by which every transcript is sorted, and the test
-- whether a path lies below another. Code (code.c) escapes blanks in paths, and ArgcArgv
-- (argcargv.c) splits the lines that hold them. HardLink (hardlink.c) is the table of the names of
-- multiply linked inodes. Base64 (base64.c) writes and reads checksums. PathList (list.c) and
-- NameList (llist.c) are the sorted lists of paths and of transcript names. Wildcard (wildcard.c)
-- matches the patterns of exclude lists. Root (root.c) finds the files that belong to a
-- transcript. Base holds what these share, and CLibrary what they use of the C library.
--
-- Transcript (transcript.c) stands on all of them. Its child Parse is transcript_parse(), which
-- reads the next entry of a transcript by ArgcArgv, Code and Base64; Print is t_print(), a line of
-- the difference; Compare is t_compare(), which holds an object of the filesystem against an
-- entry; Select is transcript_select(), which finds the entry of the least path among all
-- transcripts, and passes over the excluded ones by Wildcard; Walk is transcript(), which the walk
-- of the filesystem calls for each object, and once for its end. Chain has t_new() and t_remove(),
-- which make the chain of transcripts. Runs has the steps that may end the process, and Weight
-- what is left to read.
--
-- Apply is lapply, which carries out a difference. Its state is the globals and the variables of
-- main(); Apply itself has the events and the answers of the system, on Effect, the programs with
-- state that may end early. Stats is radstat.c, Prefix is mkprefix.c, Update is update.c, Download
-- is retr() of retr.c, and DoLine is do_line() of lapply.c, which calls them. Removals has the
-- list of directories whose removal is postponed until the difference leaves them, and Main the
-- loop over the lines up to the exit. Keeps, with its children, says what the work on one line
-- leaves alone; Settled and its children prove the order of removals and lines, Cleared is about
-- the end of the removals, Metadata is about the owner and the mode of an object, and Received
-- about downloads.
--
-- Server (command.c) is a session of the server with one client. Its state is the globals that a
-- session changes, among them the table of requests that is in use; a handler is a function of the
-- state that goes on, returns, breaks the loop, ends the process, or does what C leaves undefined
-- (Out). What the session does that others can see is a list of events, and every answer of the
-- system, of TLS and of PAM is a function of the events so far, which the record Env holds: a file
-- may change between two looks at it. A reply is its code. Keyword has keyword(), the tests of the
-- names of a request; Requests has f_retr() and the small requests, Special f_stat() and
-- special_t(), Store f_stor(), Rights f_starttls(), f_login() and f_compress(); Config has
-- command_k() and read_kfile(), which choose a client's command file and fill its access list by
-- PathList and Wildcard; Loop has the tables and cmdloop(). Mkdirs (mkdirs.c) makes the
-- directories above an upload. The other modules below Server are about the events: Adds says what
-- a step may add to them, Reads, Files and Writes say so of each function, and Gate has the orders
-- of events that Encrypted and Trusted prove of whole sessions. Tested has what keyword() lets
-- pass, and Access what the paths of RETR are made of.
--
-- A C string is the list of its bytes without the NUL (IsCString: no byte is 0), and an int that
-- only its sign is read of is a signed integer. Functions keep their C names and their arguments'
-- order. A global variable that a function changes is in World, the others are in Settings; a
-- static buffer is an argument. exit() and what C leaves undefined are results of their own
-- (Stop). A transcript's file is the list of the bytes that are left of it; the chain of
-- transcripts is a list in the order of t_next, and a transcript is known by its t_num. The
-- checksums of files, which the code takes from OpenSSL, are a parameter.
--
-- A loop is a recursion on what it walks over, or on fuel: transcript_parse() takes one round for
-- each byte of its file, transcript_select() and the loop of transcript() one for each byte that
-- is left in all of the transcripts and for each that is not at its end, wildcard() one for each
-- byte of the pattern, list_clear() one for each node, the loops of an upload and of a download
-- one for each byte that is announced, the walks of mkdirs() one for each byte of the path, and
-- cmdloop() one for each line of the client. In each case there is one more where it is needed,
-- and that is proved enough for the loops that a result below names. The nesting of command files
-- in read_kfile() has a bound of its own in Env. Stores and reads outside a buffer are results of
-- their own, where the code does not exclude them by a test. Memory allocation is taken to
-- succeed.
--
-- The model of transcript.c is that of a build for another system than Mac OS X, of a run without
-- -W, whose exclude_warnings prints a warning for each excluded path. Plain char is taken as
-- unsigned throughout: tolower() in pathcmp.c and the indices of base64_d() are of bytes from 0 to
-- 255, where a platform with signed char has negative ones. Not modelled: the reading of command
-- files for a comparison (transcript_init() and read_kfile()), output to the terminal and to the
-- log, the options, the connection and the reports of lapply, its Mac parts and chflags(), the
-- other clients of the server, the server's process (daemon.c), the programs that merge
-- transcripts, and the libraries that the programs call. The text files that the server reads are
-- taken to have no NUL, and the lines that libsnet makes of a file, and of what a client sends,
-- are given. The config file and the command files that the server opens for a client are events,
-- as the files of its requests are. STAT is told without the time and the size of the file, and
-- the transcripts that special_t() reads are no events.
pub mod Base
pub mod Effect
pub mod PathCmp
pub mod Code
pub mod ArgcArgv
pub mod HardLink
pub mod Base64
pub mod PathList
pub mod NameList
pub mod CLibrary
pub mod Wildcard
pub mod Mkdirs
pub mod Transcript
pub mod Server
pub mod Apply
pub mod Root
