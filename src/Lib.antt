-- ===== src/Lib.antt =====
-- The rmcast verification library.
--
-- rmcast shows a VNC server's desktop on an e-paper tablet. The VNC client (src/) paints what the VNC
-- library receives into a source buffer, copies the changed parts to a panel-shaped buffer under one
-- of four rotations, and sends touches back. With the vncast backend the panel's buffer is a shadow:
-- the client converts its changed parts into memory that it shares with the cast server
-- (middleware/extension/src/qtfb/server.cpp), and tells that server over a local socket, which makes
-- the tablet's interface repaint.
--
-- The files follow those parts.
-- - Base: what all modules share: lists, tests and counted loops over native numbers, the
--   integers ℤ for C++ `int`, and the indices of an image.
-- - Clip: the clipping of one axis of a rectangle, which src/app/screen.cpp and
--   src/rmioc/vncast_client.cpp both write out.
-- - Orientation: src/orientation.hpp.
-- - Screen: `app::screen` (src/app/screen.cpp). Screen holds its state and the part of
--   `rmioc::screen` that it sees; Blit is `blit_rotated`, Input `transform_input`, Repaint `repaint`
--   and `event_loop`, Damage `commit_updates`, Setup the constructor, `create_framebuf` and
--   `set_effective_orientation`. Run is the relation of all screens that these can lead to.
-- - Protocol: the messages of middleware/extension/src/qtfb/protocol.h as bytes.
-- - Server: the socket handlers of middleware/extension/src/qtfb/server.cpp. Stream is about the
--   bytes that come in, Shown about what a frame message leads to, Throttle about the frame cap,
--   Session about connections.
-- - Vncast: `ClientConnection` of src/rmioc/vncast_client.cpp: Pixel and Convert are the conversion
--   of pixels, Send the messages, Handshake the start of a connection.
-- - Client: the input handlers and the event loop of src/app (client.cpp, touch.cpp,
--   virtualkeyboard.cpp, buttons.cpp).
-- - Manager: the framebuffers that other programs share with the interface. Manager holds the state
--   of middleware/extension/src/qtfb/fbmanagement.cpp and of the controllers (FBController.cpp in the
--   same folder); Memory is the shared memory of one framebuffer, Registry the two maps, Clients the
--   threads of the clients with the relation of all their steps, Controller and Input the methods of
--   FBController.
-- - Settings: middleware/extension/src/settings.cpp; Stored is about the file and the setters.
-- - Launcher: middleware/extension/src/launcher.cpp. Quiet and Session are about the signals of a
--   session under any sequence of events, Started about what a session is started with.
-- - CommandLine: `main` of src/main.cpp up to the start of the client. Options and Checked are about
--   the options and operands, Server about the address of the SSH connection.
-- - RotationLock: `OrientationLockGuard` of src/main.cpp.
-- - Sensor: src/orientation_sensor.cpp.
-- - Detect: middleware/extension/src/detect.cpp, and the geometry that the server takes from it.
-- - Each part's Tests module applies its theorems to small concrete values.
--
-- How the code is modelled.
-- - State is a record that is passed along, and an operation is a function on it. `none` stands for
--   an access outside of a buffer or, in create_framebuf, for the exception.
-- - C++ `int` is ℤ without overflow: coordinates and areas of panels stay far below 2 ^ 31. Fields
--   of the protocol are words modulo 2 ^ 32, with conversions to and from signed values. Bytes of a
--   pixel are reduced modulo 256.
-- - The screen's pixels are cells of a list, since all accesses are of bytes_per_pixel_ bytes at
--   multiples of it, and both backends have 16 bits per pixel. The client's conversion is on bytes.
-- - The clock's readings, the environment, `strtol`, the answers of the socket calls, the mapping of
--   shared memory, the callbacks of the VNC library, `std::stoi`, the parsed options, and what Qt does
--   for the settings and the launcher (JSON, texts, processes) are arguments.
-- - The loop of onSocketReadyRead runs on fuel: one more than the bytes that have come in, which is
--   enough since each round that goes on takes a message out. Qt reports a disconnection as an event
--   of its own after disconnectFromServer.
-- - Threads: an operation is one step; the touch and sensor threads' steps come between others in any
--   order. Races inside of one operation are not modelled.
-- - The steps of the framebuffer manager are all that its code allows. What is said of its groups of
--   clients holds for runs in which no client initialises a second time or with the key -1, and says
--   so; the manager does not turn such clients away.
-- - A `QPointF` is an exact fraction of a pixel, and the item's size is in whole pixels.
-- - The framebuffer manager's `int` products wrap around, as an overflow does in the compiled code, and
--   a `size_t` has 64 bits. What the system answers to a call of createSHM is an argument, but
--   ftruncate fails for a size that is negative as an off_t, and mmap for one of 0. A map is a
--   function of its key, a pointer to a controller or a connection a number.
--
-- Not modelled: the log output, the VNC library and Qt, system calls, src/options.hpp (a copy
-- of another project's header, whose result is an argument), the middleware's views and display hook,
-- and the patches to other libraries.
pub mod Base
pub mod Clip
pub mod Orientation
pub mod Screen
pub mod Protocol
pub mod Server
pub mod Vncast
pub mod Client
pub mod Manager
pub mod Settings
pub mod Launcher
pub mod CommandLine
pub mod RotationLock
pub mod Sensor
pub mod Detect
