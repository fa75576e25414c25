-- ===== src/Lib.antt =====
-- gnet is an event-driven networking engine: an acceptor hands connections to event loops by a load
-- balancer, an event loop reads the socket of a connection when the poller says so, the application
-- takes bytes off the connection's inbound side, by itself or through a codec, and what it writes
-- goes to the socket at once or waits in the outbound buffer until the socket takes more. This
-- library models the parts that carry the bytes, and the choice of the event loop.
--
-- Prelude (with Tests, Lists, Extensional, Splits, Int): what the modules share. Numbers are native;
-- a Go `int` that may be negative is a ℤ, and where the code tests for overflow it is the bit pattern
-- of 64 bits. `none` of a function that returns an Option is a panic: a slice or an index out of
-- range, or a call of panic; where it is something else, as the error of Encode, the function says
-- so. Errors.antt are the errors that the code tests for, Io.antt what it uses of io.Reader, io.Writer
-- and sockets, each a step on a state of its own, and what it means to hand pieces to a writer, `hand`.
--
-- Toolkit.antt: internal/toolkit/math.go, CeilToPowerOfTwo and its like, on 64 bits. Bits and Ceil
-- find from the digits of an `or` which power of two they give.
--
-- Ring.antt: pkg/buffer/ring. Defs is the state and the observers (New, Buffered, Available, Bytes),
-- Reading Peek, Discard, Read and ReadByte, Growing grow, Write and WriteByte, Transfer ReadFrom and
-- WriteTo, Socket CopyFromSocket and Rewind (ring_buffer_unix.go). Contents says what a well-formed
-- buffer holds, and the other modules what each operation makes of it. The loop of grow runs on five
-- rounds of fuel: the first call has a target of at most twice the size, and four rounds of a
-- quarter more than double it. ReadFrom runs on fuel that its caller gives.
--
-- LinkedList.antt: pkg/buffer/linkedlist, on a memory of nodes: `next` and `buf` are the fields of
-- the nodes, and an operation that relinks a node writes to them. Defs are the operations, Transfer
-- ReadFrom and WriteTo; Shape says which nodes are linked, Contents which bytes they hold. Each round
-- of a loop pops a node, so the loops run on one round more than there are nodes.
--
-- Elastic.antt: pkg/buffer/elastic. RingBuffer is the ring buffer that is taken from a pool and given
-- back when drained, Buffer the ring buffer with a list behind it. Held and Storing say what they
-- hold; the theorems use those of Ring and LinkedList and do not look into their states.
--
-- Conn.antt: connection.go and the flush of eventloop.go. Inbound is the state of the inbound side,
-- Stream its bytes as one stream; Outbound is conn.write, conn.open and eventloop.write, Vectored
-- conn.writev and conn.Flush; what is left to do with the poller or the connection is a value,
-- `Next`.
--
-- Codec.antt: codec.go, over a Source, the interface of a stream; Connection shows that the inbound
-- side of a connection is one.
--
-- LoadBalancer.antt: load_balancer.go.
--
-- TaskQueue.antt: internal/queue/lock_free_queue.go, the nodes in memory and the points of Enqueue and
-- Dequeue at which a goroutine can be. Threads are any number of goroutines in any order, Invariant
-- what the nodes form and what each goroutine knows; Later, Moves, Steps and Keeping keep it, and
-- Fifo and Alone draw from it.
--
-- Poller.antt: internal/netpoll/epoll_default_poller.go, the loop of Polling and the goroutines in
-- Trigger as steps on what they share, over task queues that are lists, as TaskQueue allows. EventList
-- is epoll_events.go.
--
-- EventLoop.antt: eventloop.go, the rest of connection.go, connection_linux.go and connection_bsd.go.
-- The state is the map of connections and the connections in memory; system calls, the poller and the
-- application are arguments, the application as the calls that it makes in a callback, `Talk`.
-- Closing is closeConn, Calls the methods of a connection, Handlers the handlers; Consistent says what
-- agrees, Keeping, Calling and Handling keep it, Accepting is acceptor.go, both its functions,
-- and Steps is a run of the loop. The loop that sends the residue in closeConn runs on as many rounds as
-- there are bytes: the code goes round for ever where writev takes nothing and gives no error, and
-- then the fuel runs out. Leftover and Residue are about what read and closeConn leave.
--
-- Options.antt: options.go. Server.antt: gnet.go, listener.go and engine.go, what Run makes of an
-- address and of the options before it serves; Address is parseProtoAddr, Buffers the capacities.
--
-- Pool.antt: pkg/pool, the size classes of the pools of ring buffers and of byte slices.
--
-- Arguments stand for what is not in the repository or not modelled: `mem` for the bytes that memory
-- from the byte-slice pool holds, `pooled` for the ring buffer that its pool gives, readers and
-- writers for sockets, a function for the checksum of an address. OnClose is a function that calls no
-- method of the connection it is told of: a Write in it to the closed descriptor would call closeConn
-- once more and count the connection down again. Nor is the error path of AddTCPConnector
-- modelled, which releases a connection outside of the loop. Texts are lists of code points, with unicode.ToLower an argument. Not modelled are system calls, the
-- goroutines that start-up makes and shutdown waits for, and logging, since they are input and output
-- or glue, the ticker, a loop on timers, and the pollers on other system calls, whose loop is the same.
pub mod Prelude
pub mod Errors
pub mod Io
pub mod Toolkit
pub mod Ring
pub mod LinkedList
pub mod Elastic
pub mod Pool
pub mod Conn
pub mod Codec
pub mod LoadBalancer
pub mod TaskQueue
pub mod Poller
pub mod EventLoop
pub mod Options
pub mod Server
