-- ===== src/Lib.antt =====
-- The actor framework of stm32app: actors that run as workers of prioritised threads, exchange events
-- and share reference-counted buffers.
--
-- The parts, from the bottom up, and the files that model them:
--   Base, Signal: shared names, and the enumerations of lib/actor_rtos/src/actor/event.h.
--   Memory: RAM, and the heap of lib/actor_env/src/actor/heap.h, as an interface with the documented
--     laws of realloc (IsAllocator) and an instance of it (Memory/Arena).
--   Buffer: lib/actor_rtos/src/actor/buffer.c on one buffer. A function carries the name of the C
--     function less its prefix: `append` is actor_buffer_append.
--   Store: the same file on structs by address: creation, use and release, rings of
--     pages (Store/Pages), double buffers (Store/Double) and the pool (Store/Pool).
--   Event: lib/actor_rtos/src/actor/event.c: an event's status, its acceptance and its end. It uses
--     and releases the buffers of Store.
--   Thread: lib/actor_rtos/src/actor/thread.c. Thread/Dispatch delivers an event to workers,
--     Thread/Requeue keeps what is deferred, Thread/Await sleeps, Thread/Execute is the task's loop.
--   Job: lib/actor_rtos/src/actor/job.c: the phases of a job and the loop that calls its handler.
--   Intake: the rest of event.c, where events start jobs and are published, and actor_job_wait.
--   Thread/Creation has actor_thread_create and actor_thread_destroy.
--   Node: lib/actor_node/src/actor/node.c: the actors of a node and the workers that they give its
--     threads.
--   Mothership: src/mothership.c: the growth of the pools, and the workers of the node's own actor.
--   File: lib/actor_rtos/src/actor/file.c.
--   Timer: lib/actor_cm3/src/actor/module/timer.c: alarms on a hardware timer. Timer/Book is what its
--     callers are promised, Timer/Requests that the slots implement it.
--   Actor: lib/actor_node/src/actor/actor.c: phases, and catching up with deferred events.
--   Property: lib/actor_node/src/actor/accessors.c: writing and reading the properties of an actor.
--   Storage: the tasks of lib/actor_drivers/src/actor/storage/at24c.c.
--     Storage/Diagnosis has the job that uses them.
--   W25: lib/actor_drivers/src/actor/storage/w25.c: the jobs of a flash chip.
--   Dma: lib/actor_cm3/src/actor/lib/dma.c: the actors of streams, and the sizes of bursts.
--   I2c: lib/actor_cm3/src/actor/transport/i2c.c: the jobs of an I2C bus, on the buffers of Store and
--     the streams of Dma. I2c/Stages and I2c/Order are about their order on the bus.
--   Bytes: lib/actor_env/src/actor/lib/bytes.c.
--
-- State is passed explicitly. `none` as a result is a run that does not come back: a failed
-- actor_assert, which loops for ever, a loop that does not end, a NULL or a write outside an
-- allocation. Integers are natural numbers with the wrap-around of their C type written out;
-- pointers are addresses, 0 is NULL.
--
-- Bounds and fuel: the growth loop has 2 ^ 32 rounds, one per value of its variable, and walks over
-- pages have 2 ^ 32, one per address, so what is still running by then never ends. The halving of an
-- 8-bit limit has 9 rounds. The loop over a job takes its fuel as an argument.
--
-- Parameters: the heap; FreeRTOS's queues and notifications (Kernel, and IsFifo for what is
-- documented of its queues); worker callbacks, job handlers, subscriptions, the object that buffers
-- come from; the registers of a timer and what the actors do that it tells of alarms, which may
-- come back to it (Outside), as the SPI transport does; the theorems with IsQuiet are about a timer
-- none of whose slots is such an actor's; the flags and counters of DMA streams and the flags of an
-- I2C bus; what the heap and FreeRTOS give for a new thread (Obtained); the entries of the object
-- dictionary.
--
-- Not modelled: interrupts as such (a variant of a kernel call for interrupts has the contract of the
-- other), printing, the insides of FreeRTOS, most drivers, the object dictionary and its
-- generated code, and third-party libraries.
pub mod Actor
pub mod Base
pub mod Buffer
pub mod Bytes
pub mod Dma
pub mod Event
pub mod File
pub mod I2c
pub mod Intake
pub mod Job
pub mod Memory
pub mod Mothership
pub mod Node
pub mod Property
pub mod Signal
pub mod Storage
pub mod Store
pub mod Thread
pub mod Timer
pub mod W25
