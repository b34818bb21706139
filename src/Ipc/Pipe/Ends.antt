-- ===== src/Ipc/Pipe/Ends.antt =====
-- The two files that pipealloc (ipc/pipe.c) makes of fresh ones, as fileread, filewrite and fileclose of
-- fs/file.c see them.
use re_xvapor.Fs.File.{File}
